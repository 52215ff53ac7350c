-- ===== src/Maintenance/Store.antt =====
-- The file-backed MaintenanceStore of backend/internal/monitoring/maintenance.go. Whether the file
-- could be written is an argument; the windows in memory have changed either way.
use Prim.Native.String.{◌++◌}
use healthops.Prelude.{
  ℕ, suc, ◌*◌, ◌≤◌, String, Bool, true, false, not, ◌&&◌, Option, none, some, List, [], ◌∷◌,
  ◌++◌ as append, ◌≡◌, refl, arith, str_eq, is_blank, print_ℤ, sub_ℕ, ltb, select, count,
  if◌then◌else◌,
}
use healthops.Types.{Time, second, is_zero, before, CheckConfig}
use healthops.Maintenance.Window.{MaintenanceWindow, is_active, covers_check}

pub data StoreError : Type 0 where
  not_found refused not_persisted : StoreError

abbrev pub Windows : Type 0
Windows = List MaintenanceWindow

-- The result of writing the file.
abbrev pub persist : Bool → Option StoreError
persist true = none
persist false = some not_persisted

unfoldable pub create : Bool → Time → MaintenanceWindow → Windows → Windows × Option StoreError
unfolding print_ℤ
create disk now w ws =
    let id =
      if is_blank w.id then "mw-" ++ print_ℤ (sub_ℕ now (62_135_596_800 * second)) else w.id in
    let created_at = if is_zero w.created_at then now else w.created_at in
    (append ws (record w { id = id; created_at = created_at } ∷ []), persist disk)

abbrev Mutator : Type 0
Mutator = MaintenanceWindow → Option MaintenanceWindow

-- The first window with the identifier; a mutator's error, `none`, leaves it as it was.
unfoldable pub update : Bool → String → Mutator → Windows → Windows × Option StoreError
update disk id mutator [] = ([], some not_found)
update disk id mutator (w ∷ ws) =
    let (rest, e) = update disk id mutator ws in
    if str_eq w.id id
    then elim (mutator w) [ none ↦ (w ∷ ws, some refused) | some w' ↦ (w' ∷ ws, persist disk) ]
    else (w ∷ rest, e)

unfoldable pub delete : Bool → String → Windows → Windows × Option StoreError
delete disk id [] = ([], some not_found)
delete disk id (w ∷ ws) =
    let (rest, e) = delete disk id ws in
    if str_eq w.id id then (ws, persist disk) else (w ∷ rest, e)

unfoldable pub get : String → Windows → Option MaintenanceWindow
get id [] = none
get id (w ∷ ws) = if str_eq w.id id then some w else get id ws

unfoldable pub list_active : Time → Windows → Windows
unfolding is_active
list_active now ws = select (λ w. is_active w now) ws

unfoldable pub is_check_in_maintenance : Time → CheckConfig → Windows → Bool
is_check_in_maintenance now c [] = false
is_check_in_maintenance now c (w ∷ ws) =
    let rest = is_check_in_maintenance now c ws in
    if is_active w now && covers_check w c then true else rest

abbrev pub is_expired : Time → MaintenanceWindow → Bool
is_expired cutoff w = not w.recurring && before w.end_time cutoff

-- The loop of PruneExpired: what is kept, and how many are not.
unfoldable pub prune_loop : Time → Windows → Windows × ℕ
prune_loop cutoff [] = ([], 0)
prune_loop cutoff (w ∷ ws) =
    let (kept, removed) = prune_loop cutoff ws in
    if is_expired cutoff w then (kept, suc removed) else (w ∷ kept, removed)

-- The windows, the number removed, and the error. A failed write reports 0.
unfoldable pub prune_expired : Bool → Time → Windows → Windows × ℕ × Option StoreError
unfolding prune_loop
prune_expired disk cutoff ws =
    let (kept, removed) = prune_loop cutoff ws in
    if ltb 0 removed
    then (if disk then (kept, removed, none) else (kept, 0, some not_persisted))
    else (ws, 0, none)

expired_inactive :
    (cutoff now : Time) (w : MaintenanceWindow)
    → cutoff ≤ now
    → is_expired cutoff w ≡ true
    → is_active w now ≡ false
unfolding is_active
expired_inactive cutoff now w h e = ground arith

prune_loop-maintenance :
    (cutoff now : Time) (c : CheckConfig) (ws : Windows)
    → cutoff ≤ now
    → is_check_in_maintenance now c (prune_loop cutoff ws).0 ≡ is_check_in_maintenance now c ws
unfolding is_check_in_maintenance prune_loop
prune_loop-maintenance cutoff now c [] h = refl
prune_loop-maintenance cutoff now c (w ∷ ws) h =
    ground (arith, prune_loop-maintenance cutoff now c ws h, expired_inactive cutoff now w h)

-- To remove the windows that ended before a cutoff which is not in the future does not change
-- which checks are in maintenance, whether or not the file could be written.
prune_expired-maintenance :
    (disk : Bool) (cutoff now : Time) (c : CheckConfig) (ws : Windows)
    → cutoff ≤ now
    → is_check_in_maintenance now c (prune_expired disk cutoff ws).0
      ≡ is_check_in_maintenance now c ws
unfolding prune_expired
prune_expired-maintenance disk cutoff now c ws h =
    ground (arith, prune_loop-maintenance cutoff now c ws h)

prune_loop-count :
    (cutoff : Time) (ws : Windows) → (prune_loop cutoff ws).1 ≡ count (is_expired cutoff) ws
unfolding prune_loop
prune_loop-count cutoff [] = refl
prune_loop-count cutoff (w ∷ ws) = ground (arith, prune_loop-count cutoff ws)

prune_loop-select :
    (cutoff : Time) (ws : Windows)
    → (prune_loop cutoff ws).0 ≡ select (λ w. not (is_expired cutoff w)) ws
unfolding prune_loop
prune_loop-select cutoff [] = refl
prune_loop-select cutoff (w ∷ ws) = ground (arith, prune_loop-select cutoff ws)

prune_loop-none :
    (cutoff : Time) (ws : Windows) → (prune_loop cutoff ws).1 ≡ 0 → (prune_loop cutoff ws).0 ≡ ws
unfolding prune_loop
prune_loop-none cutoff [] h = refl
prune_loop-none cutoff (w ∷ ws) h = ground (arith, prune_loop-none cutoff ws)

-- PruneExpired keeps, in their order, the windows that recur or have not ended before the cutoff,
-- whether or not the file could be written. It reports how many it removed, or 0 where the write
-- failed, and fails exactly if there was something to remove and the write failed.
prune_expired-eq :
    (disk : Bool) (cutoff : Time) (ws : Windows)
    → prune_expired disk cutoff ws ≡ (
      select (λ w. not (is_expired cutoff w)) ws,
      (if disk then count (is_expired cutoff) ws else 0),
      (if ltb 0 (count (is_expired cutoff) ws) && not disk then some not_persisted else none),
    )
unfolding prune_expired
prune_expired-eq disk cutoff ws =
    ground
      (arith, prune_loop-select cutoff ws, prune_loop-none cutoff ws, prune_loop-count cutoff ws)
