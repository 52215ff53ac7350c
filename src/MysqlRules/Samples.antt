-- ===== src/MysqlRules/Samples.antt =====
-- Samples and deltas of backend/internal/monitoring/mysql_models.go: the counters that the rules
-- and ComputeDelta read.
use healthops.Prelude.{
  String, ◌≡◌, ◌⊎◌, ℤ, pos, arith, ltb_ℤ, is_positive, sub_ℕ, pos_part, neg_part, ◌+◌,
  if◌then◌else◌,
}
use healthops.Types.{Time}
use healthops.Floats.{Floats, fle}

pub record MysqlSample : Type 0 where
  pub sample_id : String
  pub check_id : String
  pub timestamp : Time
  pub connections : ℤ
  pub max_connections : ℤ
  pub threads_running : ℤ
  pub threads_created : ℤ
  pub aborted_connects : ℤ
  pub slow_queries : ℤ
  pub questions : ℤ
  pub innodb_row_lock_waits : ℤ
  pub created_tmp_disk_tables : ℤ
  pub created_tmp_tables : ℤ
  pub connections_refused : ℤ

pub record MysqlDelta (F : Type 0) : Type 0 where
  pub sample_id : String
  pub check_id : String
  pub interval_sec : F
  pub timestamp : Time
  pub aborted_connects_delta : ℤ
  pub aborted_connects_per_sec : F
  pub slow_queries_delta : ℤ
  pub slow_queries_per_sec : F
  pub questions_delta : ℤ
  pub questions_per_sec : F
  pub row_lock_waits_delta : ℤ
  pub row_lock_waits_per_sec : F
  pub tmp_disk_tables_delta : ℤ
  pub tmp_disk_tables_pct : F
  pub threads_created_delta : ℤ
  pub threads_created_per_sec : F
  pub connections_refused_delta : ℤ

-- a - b on Go's int64, without its bound.
abbrev pub minus : ℤ → ℤ → ℤ
minus a b = sub_ℕ (pos_part a + neg_part b) (neg_part a + pos_part b)

unfoldable pub counter_diff : ℤ → ℤ → ℤ
counter_diff current previous =
    let diff = minus current previous in if ltb_ℤ diff (pos 0) then pos 0 else diff

-- The difference is never negative: it is how far the counter went up, or 0 where it was reset.
counter_diff_bounds :
    (current previous : ℤ)
    → (neg_part (counter_diff current previous) ≡ 0)
      × ((counter_diff current previous ≡ pos 0)
          ⊎ (pos_part (counter_diff current previous) + pos_part previous + neg_part current
              ≡ pos_part current + neg_part previous))
unfolding counter_diff
counter_diff_bounds current previous = ground arith

module _ (fl : Floats) where
  open fl use {F, fdiv, fmul, of_int, seconds}

  unfoldable pub compute_delta : MysqlSample → MysqlSample → MysqlDelta F
  unfolding counter_diff
  compute_delta current previous =
      let elapsed = seconds (sub_ℕ current.timestamp previous.timestamp) in
      let interval = if fle fl elapsed (of_int (pos 0)) then of_int (pos 1) else elapsed in
      let aborted = counter_diff current.aborted_connects previous.aborted_connects in
      let slow = counter_diff current.slow_queries previous.slow_queries in
      let questions = counter_diff current.questions previous.questions in
      let waits = counter_diff current.innodb_row_lock_waits previous.innodb_row_lock_waits in
      let disk = counter_diff current.created_tmp_disk_tables previous.created_tmp_disk_tables in
      let tables = counter_diff current.created_tmp_tables previous.created_tmp_tables in
      let threads = counter_diff current.threads_created previous.threads_created in
      record {
        sample_id = current.sample_id;
        check_id = current.check_id;
        interval_sec = interval;
        timestamp = current.timestamp;
        aborted_connects_delta = aborted;
        aborted_connects_per_sec = fdiv (of_int aborted) interval;
        slow_queries_delta = slow;
        slow_queries_per_sec = fdiv (of_int slow) interval;
        questions_delta = questions;
        questions_per_sec = fdiv (of_int questions) interval;
        row_lock_waits_delta = waits;
        row_lock_waits_per_sec = fdiv (of_int waits) interval;
        tmp_disk_tables_delta = disk;
        tmp_disk_tables_pct =
            if is_positive tables
            then fmul (fdiv (of_int disk) (of_int tables)) (of_int (pos 100))
            else of_int (pos 0);
        threads_created_delta = threads;
        threads_created_per_sec = fdiv (of_int threads) interval;
        connections_refused_delta =
            counter_diff current.connections_refused previous.connections_refused;
      }
