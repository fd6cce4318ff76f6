-- ===== src/Types/Names.antt =====
-- The names of priorities and statuses, and reading them back.
use distributed_grpc_task_ma.Prelude.{
  ◌≡◌, Bool, ◌&&◌, pos, negsuc, zero, suc, refl, arith, ltb_ℤ, if◌then◌else◌, ℕ,
}
use distributed_grpc_task_ma.Types.{
  Priority, priority_low, priority_string, parse_priority, Status, status_pending, status_string,
  parse_status,
}

-- Whether an integer lies in [0, n).
abbrev pub is_below : ℕ → Priority → Bool
is_below n p = ltb_ℤ p (pos n) && ltb_ℤ (negsuc 0) p

priority_string-large : (n : ℕ) → priority_string (pos (suc (suc (suc n)))) ≡ "unknown"
unfolding priority_string
priority_string-large n = ground arith

priority_string-negative : (n : ℕ) → priority_string (negsuc n) ≡ "unknown"
unfolding priority_string
priority_string-negative n = ground arith

status_string-large : (n : ℕ) → status_string (pos (suc (suc (suc (suc (suc n)))))) ≡ "unknown"
unfolding status_string
status_string-large n = ground arith

status_string-negative : (n : ℕ) → status_string (negsuc n) ≡ "unknown"
unfolding status_string
status_string-negative n = ground arith

parse_priority-priority_string :
    (p : Priority) → parse_priority (priority_string p) ≡ (if is_below 3 p then p else priority_low)
unfolding parse_priority priority_string
parse_priority-priority_string (pos zero) = refl
parse_priority-priority_string (pos (suc zero)) = refl
parse_priority-priority_string (pos (suc (suc zero))) = refl
parse_priority-priority_string (pos (suc (suc (suc n)))) =
    rw (priority_string-large n) (ground arith)
parse_priority-priority_string (negsuc n) = rw (priority_string-negative n) (ground arith)

parse_status-status_string :
    (s : Status) → parse_status (status_string s) ≡ (if is_below 5 s then s else status_pending)
unfolding parse_status status_string
parse_status-status_string (pos zero) = refl
parse_status-status_string (pos (suc zero)) = refl
parse_status-status_string (pos (suc (suc zero))) = refl
parse_status-status_string (pos (suc (suc (suc zero)))) = refl
parse_status-status_string (pos (suc (suc (suc (suc zero))))) = refl
parse_status-status_string (pos (suc (suc (suc (suc (suc n)))))) =
    rw (status_string-large n) (ground arith)
parse_status-status_string (negsuc n) = rw (status_string-negative n) (ground arith)

-- Reading the name of a priority gives the priority back if it is one of the three constants, and the low
-- priority for any other integer; reading the name of a status gives the status back if it is one of the
-- five constants, and pending for any other integer.
pub parse-string :
    (p : Priority) (s : Status)
    → (parse_priority (priority_string p) ≡ (if is_below 3 p then p else priority_low))
      × (parse_status (status_string s) ≡ (if is_below 5 s then s else status_pending))
parse-string p s = (parse_priority-priority_string p, parse_status-status_string s)
