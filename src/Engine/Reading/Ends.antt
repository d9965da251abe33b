-- ===== src/Engine/Reading/Ends.antt =====
-- Reading the audit log comes to an end.
use kubedrill.Shared.{
  ℕ, zero, suc, ◌≤◌, ◌<◌, ◌+◌, String, Bool, true, false, ◌||◌, some, List, ◌++◌, ◌==◌, ◌≡◌, refl,
  nat_eq, Bool-cases, inl, inr, arith,
}
use kubedrill.Shared.Results.{Result, ok, err}
use kubedrill.Rules.Audit.{AuditEvent}
use kubedrill.Engine.Reading.{AuditLog, is_end, next_round, read_from, decode_audit_lines}

moved :
    (b : Bool) (next cursor : ℕ) → (b || nat_eq next cursor) ≡ false → cursor ≤ next → cursor < next
moved true next cursor e low = cc
moved false next cursor e low = ground arith

module _ {W : Type 0} (log : AuditLog W) where
  -- A log of at most `size` bytes: from a cursor in it, the next one is not before it, nor beyond the
  -- log.
  abbrev pub IsBounded : ℕ → String → Type 0
  IsBounded size id =
      (cursor : ℕ) (w : W) (raw : String) (next : ℕ)
      → cursor ≤ size
      → (log.audit_events id cursor w).0 ≡ ok (raw, next)
      → (cursor ≤ next) × (next ≤ size)

  -- Reading a log of a bounded size ends, within as many rounds as there are bytes, and one.
  pub read_from-Ends :
      (size : ℕ) (id : String)
      → IsBounded size id
      → (rounds cursor : ℕ) (all : List AuditEvent) (w : W) → size < cursor + rounds
      → cursor ≤ size
      → (r : Result (List AuditEvent)) × ((read_from log rounds id cursor all w).0 ≡ some r)
  unfolding read_from
  read_from-Ends size id bounded zero cursor all w enough inside = absurd (omega arith)
  read_from-Ends size id bounded (suc rounds) cursor all w enough inside =
      either (log.audit_events id cursor w).0 refl (λ next raw low high.
        read_from-Ends size id bounded rounds next (all ++ decode_audit_lines log raw)
          (log.audit_events id cursor w).1 (omega arith) high)
    where
      w' : W
      w' = (log.audit_events id cursor w).1

      either :
          (r : Result (String × ℕ))
          → (log.audit_events id cursor w).0 ≡ r
          → ((next : ℕ) (raw : String)
              → cursor < next
              → next ≤ size
              → (s : Result (List AuditEvent)) × ((read_from log rounds id next
                    (all ++ decode_audit_lines log raw)
                    w').0
                  ≡ some s))
          → (s : Result (List AuditEvent)) × ((next_round log
                (read_from log rounds id)
                cursor
                all
                r
                w').0
              ≡ some s)
      either (err e) h later = (err e, refl)
      either (ok (raw, next)) h later = elim (Bool-cases (is_end log raw next cursor)) [
        | inl e ↦ rw (e, next_round) (ok all, refl)
        | inr e ↦
            let (low, high) = bounded cursor w raw next inside h in
            rw (e, next_round) (later next raw (moved (raw == "") next cursor e low) high)
      ]
