-- ===== src/Engine/Reading.antt =====
-- internal/engine/grade.go: reading the audit log, in rounds that resume where the last one ended.
pub mod Ends
use kubedrill.Shared.{
  ℕ, zero, suc, ◌≤◌, ◌<◌, ◌+◌, ◌-◌, String, Bool, true, false, not, ◌||◌, Option, none, some, List,
  [], ◌∷◌, ◌++◌, ◌==◌, ◌≡◌, refl, ap, sym, ◌∙◌, nat_eq, if◌then◌else◌, Bool-cases, inl, inr, arith,
}
use Prim.Native.String
use Prim.Native.Char.{code}
use kubedrill.Shared.State.{M, pure, ◌>>=◌}
use kubedrill.Shared.Results.{Result, ok, err}
use kubedrill.Rules.Audit.{AuditEvent}

-- The calls: the provider's handle of the session's environment (the error, if any), `AuditEvents`
-- of it, the lines of `bufio.Scanner`, and `json.Unmarshal` of an event.
pub record AuditLog (W : Type 0) : Type 0 where
  pub environment : String → M W (Option String)
  pub audit_events : String → ℕ → M W (Result (String × ℕ))
  pub scan_lines : String → List String
  pub unmarshal_event : String → Option AuditEvent

-- `len(line) == 0 || line[0] != '{'`
abbrev pub opens_object : String → Bool
opens_object String.[] = false
opens_object (String.◌∷◌ c s) = nat_eq (code c) b'{'

abbrev pub decoded_line : Option AuditEvent → List AuditEvent → List AuditEvent
decoded_line none rest = rest
decoded_line (some ev) rest = ev ∷ rest

module _ {W : Type 0} (log : AuditLog W) where
  -- The loop of `decodeAuditLines`
  abbrev pub decode_lines : List String → List AuditEvent
  decode_lines [] = []
  decode_lines (line ∷ lines) =
      let rest = decode_lines lines in
      if opens_object line then decoded_line (log.unmarshal_event line) rest else rest

  -- `decodeAuditLines`
  abbrev pub decode_audit_lines : String → List AuditEvent
  decode_audit_lines raw = decode_lines (log.scan_lines raw)

  abbrev pub is_end : String → ℕ → ℕ → Bool
  is_end raw next cursor = raw == "" || nat_eq next cursor

  -- One round of the loop; `again` is the next one.
  abbrev pub next_round :
      (ℕ → List AuditEvent → M W (Option (Result (List AuditEvent))))
      → ℕ
      → List AuditEvent
      → Result (String × ℕ)
      → M W (Option (Result (List AuditEvent)))
  next_round again cursor all (err e) = pure (some (err e))
  next_round again cursor all (ok (raw, next)) =
      if is_end raw next cursor
      then pure (some (ok all))
      else again next (all ++ decode_audit_lines raw)

  -- The loop of `readAllAuditEvents`; none where the rounds are used up.
  unfoldable pub read_from :
      ℕ → String → ℕ → List AuditEvent → M W (Option (Result (List AuditEvent)))
  read_from zero id cursor all = pure none
  read_from (suc rounds) id cursor all = do
    r ← log.audit_events id cursor
    next_round (read_from rounds id) cursor all r
