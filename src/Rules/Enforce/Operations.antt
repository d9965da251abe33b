-- ===== src/Rules/Enforce/Operations.antt =====
-- The operations that an enforced rule blocks.
use kubedrill.Shared.{
  String, ◌≡◌, refl, ◌↔◌, ◌⊎◌, inl, inr, true, Option, none, some, List, [], ◌∷◌, Memᴰ, ◌==◌,
  eq_iff, is_empty, Bool-cases, mem-append_left, mem-append_right, mem-append_cases, mem_of_any,
  sym, ap, is_empty→nil, not_mem_of_nil, nonempty_of_mem, first_of_nonempty, mem-cons_cases,
  if◌then◌else◌,
}
use kubedrill.Rules.Grade.{contains}
use kubedrill.Rules.Enforce.{op_of_verb, add_op, collect_ops, admission_ops, all_ops}

-- Some verb of the list maps to the operation.
abbrev Asked : String → List String → Type 0
Asked op verbs = (v : String) × Memᴰ v verbs × (op_of_verb v ≡ some op)

add_op_keeps :
    (out : List String) (o : Option String) (op : String) → Memᴰ op out → Memᴰ op (add_op out o)
add_op_keeps out none op m = m
add_op_keeps out (some p) op m = elim (Bool-cases (contains out p)) [
  | inl e ↦ rw e m
  | inr e ↦ rw e (mem-append_left _ m)
]

add_op_adds : (out : List String) (op : String) → Memᴰ op (add_op out (some op))
add_op_adds out op = elim (Bool-cases (contains out op)) [
  | inl e ↦
      let (x, m, same) = mem_of_any (λ x. x == op) out e in rw e (rw (← (eq_iff x op).0 same) m)
  | inr e ↦ rw e (mem-append_right out (Memᴰ.head refl))
]

add_op_cases :
    (out : List String) (o : Option String) (op : String)
    → Memᴰ op (add_op out o)
    → Memᴰ op out ⊎ (o ≡ some op)
add_op_cases out none op m = inl m
add_op_cases out (some p) op m = elim (Bool-cases (contains out p)) [
  | inl e ↦ inl (rw e at m)
  | inr e ↦ elim (mem-append_cases out (rw e at m)) [
    | inl old ↦ inl old
    | inr (Memᴰ.head same) ↦ inr (ap some (sym same))
    | inr (Memᴰ.tail t) ↦ elim t [ ]
  ]
]

collect_sound :
    (verbs out : List String) (op : String)
    → Memᴰ op (collect_ops out verbs)
    → Memᴰ op out ⊎ Asked op verbs
unfolding collect_ops
collect_sound [] out op m = inl m
collect_sound (v ∷ vs) out op m = elim (collect_sound vs (add_op out (op_of_verb v)) op m) [
  | inr (w, at, e) ↦ inr (w, Memᴰ.tail at, e)
  | inl added ↦ elim (add_op_cases out (op_of_verb v) op added) [
    | inl old ↦ inl old
    | inr e ↦ inr (v, Memᴰ.head refl, e)
  ]
]

collect_keeps :
    (verbs out : List String) (op : String) → Memᴰ op out → Memᴰ op (collect_ops out verbs)
unfolding collect_ops
collect_keeps [] out op m = m
collect_keeps (v ∷ vs) out op m =
    collect_keeps vs (add_op out (op_of_verb v)) op (add_op_keeps out (op_of_verb v) op m)

collect_complete :
    (verbs out : List String) (op v : String)
    → Memᴰ v verbs
    → op_of_verb v ≡ some op
    → Memᴰ op (collect_ops out verbs)
unfolding collect_ops
collect_complete [] out op v m e = elim m [ ]
collect_complete (w ∷ ws) out op v (Memᴰ.head same) e =
    let adds : Memᴰ op (add_op out (op_of_verb w)) = rw (← same, e) (add_op_adds out op) in
    collect_keeps ws (add_op out (op_of_verb w)) op adds
collect_complete (w ∷ ws) out op v (Memᴰ.tail m) e =
    collect_complete ws (add_op out (op_of_verb w)) op v m e

-- No verb of the list maps to an operation: it is empty, or names none of the mutating verbs.
abbrev NoneAsked : List String → Type 0
NoneAsked verbs = (op : String) → ¬ Asked op verbs

nothing_asked : (verbs : List String) → is_empty (collect_ops [] verbs) ≡ true → NoneAsked verbs
nothing_asked verbs e op (v, m, h) =
    not_mem_of_nil (is_empty→nil _ e) (collect_complete verbs [] op v m h)

admission_ops_lem :
    (verbs : List String)
    → admission_ops verbs
      ≡ (if is_empty (collect_ops [] verbs) then all_ops else collect_ops [] verbs)
unfolding admission_ops collect_ops
admission_ops_lem [] = refl
admission_ops_lem (v ∷ vs) = refl

blocked_sound :
    (verbs : List String) (op : String)
    → Memᴰ op (admission_ops verbs)
    → Asked op verbs ⊎ (NoneAsked verbs × Memᴰ op all_ops)
blocked_sound verbs op m = elim (Bool-cases (is_empty (collect_ops [] verbs))) [
  | inl e ↦ inr (nothing_asked verbs e, rw (admission_ops_lem verbs, e) at m)
  | inr e ↦ elim (collect_sound verbs [] op (rw (admission_ops_lem verbs, e) at m)) [
    | inl m' ↦ absurd (not_mem_of_nil refl m')
    | inr asked ↦ inl asked
  ]
]

blocked_complete :
    (verbs : List String) (op : String)
    → Asked op verbs ⊎ (NoneAsked verbs × Memᴰ op all_ops)
    → Memᴰ op (admission_ops verbs)
blocked_complete verbs op (inl (v, m, h)) =
    let c = collect_complete verbs [] op v m h in
    rw (admission_ops_lem verbs, nonempty_of_mem _ c) c
blocked_complete verbs op (inr (no_verb, m)) = elim (Bool-cases (is_empty (collect_ops [] verbs))) [
  | inl e ↦ rw (admission_ops_lem verbs, e) m
  | inr e ↦
      let (o, c) = first_of_nonempty _ e in
      elim (collect_sound verbs [] o c) [
        | inl m' ↦ absurd (not_mem_of_nil refl m')
        | inr asked ↦ absurd (no_verb o asked)
      ]
]

-- The table of verbs and the operations of admission that they are.
abbrev pub VerbFor : String → String → Type 0
VerbFor op v =
    ((op ≡ "CREATE") × (v ≡ "create"))
    ⊎ (((op ≡ "UPDATE") × ((v ≡ "update") ⊎ (v ≡ "patch")))
        ⊎ ((op ≡ "DELETE") × ((v ≡ "delete") ⊎ (v ≡ "deletecollection"))))

-- The operations that change something.
abbrev pub Mutating : String → Type 0
Mutating op = (op ≡ "CREATE") ⊎ ((op ≡ "UPDATE") ⊎ (op ≡ "DELETE"))

-- Some verb of the list is the operation.
abbrev pub Wanted : String → List String → Type 0
Wanted op verbs = (v : String) × Memᴰ v verbs × VerbFor op v

some_same : {a b : String} → some a ≡ some b → a ≡ b
some_same h = cc

op_of_verb-VerbFor : (v op : String) → op_of_verb v ≡ some op → VerbFor op v
op_of_verb-VerbFor v op h = elim (Bool-cases (v == "create")) [
  | inl e ↦ inl (some_same (sym (rw e at h)), (eq_iff v "create").0 e)
  | inr n ↦ elim (Bool-cases (v == "update")) [
    | inl e ↦ inr (inl (some_same (sym (rw (n, e) at h)), inl ((eq_iff v "update").0 e)))
    | inr m ↦ elim (Bool-cases (v == "patch")) [
      | inl e ↦ inr (inl (some_same (sym (rw (n, m, e) at h)), inr ((eq_iff v "patch").0 e)))
      | inr k ↦ elim (Bool-cases (v == "delete")) [
        | inl e ↦ inr (inr (some_same (sym (rw (n, m, k, e) at h)), inl ((eq_iff v "delete").0 e)))
        | inr l ↦ elim (Bool-cases (v == "deletecollection")) [
          | inl e ↦ inr (
              inr (
                some_same (sym (rw (n, m, k, l, e) at h)),
                inr ((eq_iff v "deletecollection").0 e),
              ))
          | inr f ↦ let none_left = rw (n, m, k, l, f) at h in cc
        ]
      ]
    ]
  ]
]

VerbFor-op_of_verb : (v op : String) → VerbFor op v → op_of_verb v ≡ some op
VerbFor-op_of_verb v op (inl (o, e)) = rw (e, o) refl
VerbFor-op_of_verb v op (inr (inl (o, inl e))) = rw (e, o) refl
VerbFor-op_of_verb v op (inr (inl (o, inr e))) = rw (e, o) refl
VerbFor-op_of_verb v op (inr (inr (o, inl e))) = rw (e, o) refl
VerbFor-op_of_verb v op (inr (inr (o, inr e))) = rw (e, o) refl

Asked-Wanted : (op : String) (verbs : List String) → Asked op verbs ↔ Wanted op verbs
Asked-Wanted op verbs = (
  (λ (v, m, h). (v, m, op_of_verb-VerbFor v op h)),
  (λ (v, m, h). (v, m, VerbFor-op_of_verb v op h)),
)

all_ops-Mutating : (op : String) → Memᴰ op all_ops ↔ Mutating op
all_ops-Mutating op = (
  (λ m. elim (mem-cons_cases m) [
    | inl e ↦ inl e
    | inr m' ↦ elim (mem-cons_cases m') [
      | inl e ↦ inr (inl e)
      | inr m'' ↦ elim (mem-cons_cases m'') [
        | inl e ↦ inr (inr e)
        | inr none_left ↦ absurd (not_mem_of_nil refl none_left)
      ]
    ]
  ]),
  (λ o. elim o [
    | inl e ↦ Memᴰ.head e
    | inr (inl e) ↦ Memᴰ.tail (Memᴰ.head e)
    | inr (inr e) ↦ Memᴰ.tail (Memᴰ.tail (Memᴰ.head e))
  ]),
)

-- CREATE is blocked by the verb create, UPDATE by update and patch, DELETE by delete and
-- deletecollection: an operation is blocked exactly when a verb of the rule stands for it, or when no
-- verb of the rule stands for any and it is one of these three.
pub admission_ops_iff :
    (verbs : List String) (op : String)
    → Memᴰ op (admission_ops verbs)
      ↔ (Wanted op verbs ⊎ (((o : String) → ¬ Wanted o verbs) × Mutating op))
admission_ops_iff verbs op = (
  (λ m. elim (blocked_sound verbs op m) [
    | inl asked ↦ inl ((Asked-Wanted op verbs).0 asked)
    | inr (nobody, all) ↦
        inr ((λ o w. nobody o ((Asked-Wanted o verbs).1 w)), (all_ops-Mutating op).0 all)
  ]),
  (λ m. blocked_complete verbs op (elim m [
    | inl w ↦ inl ((Asked-Wanted op verbs).1 w)
    | inr (nobody, all) ↦
        inr ((λ o a. nobody o ((Asked-Wanted o verbs).0 a)), (all_ops-Mutating op).1 all)
  ])),
)
