-- ===== src/Kind/Audit.antt =====
-- Reading the audit log of a kind cluster to its end.
use Prim.Native.Char.{code}
use text.Mathlib.TextLemmas.{nil-append, cons-append}
use kubedrill.Rules.Policy.{audit_log_path}
use kubedrill.Shared.{
  ℕ, suc, ◌+◌, String, true, false, Option, none, some, List, [], ◌==◌, ◌≡◌, ◌≢◌, ◌⊎◌, ◌⧺◌, refl,
  sym, ap, ◌∙◌, subst, nat_eq, eq_iff, Bool-cases, inl, inr, arith, if◌then◌else◌,
}
use kubedrill.Shared.Results.{Result, ok}
use kubedrill.Rules.Audit.{AuditEvent}
use kubedrill.Engine.Reading.{AuditLog, read_from, next_round, decode_audit_lines}
use kubedrill.Kind.Runtime.{Runtime, output, Handle}
use kubedrill.Kind.Environment.{
  drop_text, text_length, line_end, whole_lines, control_plane, audit_events, read_node,
}

-- After the whole lines there is no whole line.
rest-whole_lines :
    (s : String) → whole_lines (drop_text (text_length (whole_lines s)) s) ≡ String.[]
unfolding whole_lines
rest-whole_lines String.[] = refl
rest-whole_lines (String.◌∷◌ c s) = after (whole_lines s) refl (rest-whole_lines s)
  where
    after :
        (t : String)
        → whole_lines s ≡ t
        → whole_lines (drop_text (text_length t) s) ≡ String.[]
        → whole_lines (drop_text (text_length (line_end c t)) (String.◌∷◌ c s)) ≡ String.[]
    after String.[] h rest = elim (Bool-cases (nat_eq (code c) b'\n')) [
      | inl e ↦ rw e h
      | inr e ↦ rw e (rw h (rw e refl))
    ]
    after (String.◌∷◌ d r) h rest = rest

-- The text ends with a newline.
abbrev pub EndsLine : String → Type 0
EndsLine String.[] = ⊥
EndsLine (String.◌∷◌ c String.[]) = code c ≡ b'\n'
EndsLine (String.◌∷◌ c (String.◌∷◌ d s)) = EndsLine (String.◌∷◌ d s)

abbrev pub NoNewline : String → Type 0
NoNewline String.[] = Unit
NoNewline (String.◌∷◌ c s) = (code c ≢ b'\n') × NoNewline s

-- The text is complete lines and then a line that is not complete.
pub record Split (s whole rest : String) : Type 0 where
  pub parts : whole ⧺ rest ≡ s
  pub complete : (whole ≡ "") ⊎ EndsLine whole
  pub incomplete : NoNewline rest

whole_lines-Split : (s : String) → (rest : String) × Split s (whole_lines s) rest
unfolding whole_lines
whole_lines-Split String.[] = ("", record { parts = refl; complete = inl refl; incomplete = tt })
whole_lines-Split (String.◌∷◌ c s) =
    let (rest, h) = whole_lines-Split s in after (whole_lines s) rest h
  where
    after :
        (t rest : String)
        → Split s t rest
        → (rest : String) × Split (String.◌∷◌ c s) (line_end c t) rest
    after String.[] rest h = elim (Bool-cases (nat_eq (code c) b'\n')) [
      | inl e ↦
          let newline : code c ≡ b'\n' = ground arith in
          rw e (
            rest,
            record {
              parts = cons-append c "" rest ∙ ap (String.◌∷◌ c) h.parts;
              complete = inr newline;
              incomplete = h.incomplete;
            },
          )
      | inr e ↦
          let other : code c ≢ b'\n' = ground arith in
          rw e (
            String.◌∷◌ c rest,
            record {
              parts =
                  nil-append (String.◌∷◌ c rest)
                  ∙ ap (String.◌∷◌ c) (sym (nil-append rest) ∙ h.parts);
              complete = inl refl;
              incomplete = (other, h.incomplete);
            },
          )
    ]
    after (String.◌∷◌ d t) rest h = (
      rest,
      record {
        parts = cons-append c (String.◌∷◌ d t) rest ∙ ap (String.◌∷◌ c) h.parts;
        complete = elim h.complete [ inl e ↦ cc | inr e ↦ inr e ];
        incomplete = h.incomplete;
      },
    )

module _ {W : Type 0} (runtime : Runtime W) (scan_lines : String → List String)
    (unmarshal_event : String → Option AuditEvent) (env : Handle) where
  -- The audit log of the handle's cluster, as the engine reads it.
  abbrev pub log_of : AuditLog W
  log_of = record {
    environment = λ id w. (none, w);
    audit_events = λ id from w. audit_events runtime env from w;
    scan_lines = scan_lines;
    unmarshal_event = unmarshal_event;
  }

  -- While the log is `log`: the control plane is found, and `tail` on it gives the log from a byte on.
  pub record Tails (log : String) : Type 0 where
    pub node : String
    pub wired : env.audit ≡ true
    pub found : (w : W) → (control_plane runtime env.cluster w).0 ≡ ok node
    pub tail :
        (from : ℕ) (w : W)
        → (runtime.tail node (from + 1) audit_log_path w).0 ≡ output (drop_text from log)

  module _ (log : String) (tails : Tails log) where
    audit_events-lines :
        (from : ℕ) (w : W)
        → (audit_events runtime env from w).0
          ≡ ok (
            whole_lines (drop_text from log),
            from + text_length (whole_lines (drop_text from log)),
          )
    unfolding audit_events
    audit_events-lines from w =
        rw tails.wired (read (control_plane runtime env.cluster w).0 (tails.found w))
      where
        w' : W
        w' = (control_plane runtime env.cluster w).1

        read :
            (r : Result String)
            → r ≡ ok tails.node
            → (read_node runtime from r w').0
              ≡ ok (
                whole_lines (drop_text from log),
                from + text_length (whole_lines (drop_text from log)),
              )
        read r h = rw h (rw (tails.tail from w') refl)

    one_round :
        (n from : ℕ) (id : String) (all : List AuditEvent) (w : W)
        → (w' : W) × ((read_from log_of (suc n) id from all w).0
            ≡ (next_round log_of
                (read_from log_of n id)
                from
                all
                (ok (
                  whole_lines (drop_text from log),
                  from + text_length (whole_lines (drop_text from log)),
                ))
                w').0)
    unfolding read_from
    one_round n from id all w = (
      (audit_events runtime env from w).1,
      ap
          (λ r.
            (next_round log_of (read_from log_of n id) from all r
              (audit_events runtime env from w).1).0)
          (audit_events-lines from w),
    )

    -- A round without a whole line is the last one.
    last_round :
        (n from : ℕ) (id : String) (all : List AuditEvent) (w : W)
        → whole_lines (drop_text from log) ≡ String.[]
        → (read_from log_of (suc n) id from all w).0 ≡ some (ok all)
    last_round n from id all w h = let (w', e) = one_round n from id all w in e ∙ rw h refl

    grows : (t : String) → (t == "") ≡ false → nat_eq (0 + text_length t) 0 ≡ false
    grows String.[] h = cc
    grows (String.◌∷◌ c t) h = ground arith

    -- The events of all whole lines of the log.
    abbrev all_events : List AuditEvent
    all_events = if whole_lines log == "" then [] else decode_audit_lines log_of (whole_lines log)

    read_from-whole :
        (rounds : ℕ) (id : String) (w : W)
        → (read_from log_of (suc (suc rounds)) id 0 [] w).0 ≡ some (ok all_events)
    read_from-whole rounds id w = elim (Bool-cases (whole_lines log == "")) [
      | inl e ↦ rw e (last_round (suc rounds) 0 id [] w ((eq_iff (whole_lines log) "").0 e))
      | inr e ↦
          let (w', h) = one_round (suc rounds) 0 id [] w in
          let same : 0 + text_length (whole_lines log) ≡ text_length (whole_lines log) =
            omega arith in
          let moved = grows (whole_lines log) e in
          rw e (
            h
            ∙ rw (e, moved)
                (last_round rounds (0 + text_length (whole_lines log)) id
                  (decode_audit_lines log_of (whole_lines log)) w'
                  (subst (λ k. whole_lines (drop_text k log) ≡ String.[]) (sym same)
                    (rest-whole_lines log))))
    ]

    -- The engine reads the log of a kind cluster to its end within two rounds, and gets the events of
    -- exactly its complete lines, each once: what follows the last newline is not read.
    pub read_from-all :
        (rounds : ℕ) (id : String) (w : W)
        → (whole : String) × (rest : String) × Split log whole rest
          × ((read_from log_of (suc (suc rounds)) id 0 [] w).0
              ≡ some (ok (if whole == "" then [] else decode_audit_lines log_of whole)))
    read_from-all rounds id w =
        let (rest, split) = whole_lines-Split log in
        (whole_lines log, rest, split, read_from-whole rounds id w)
