-- ===== src/Shared/State.antt =====
-- Computations that read and change the world: explicit state passing, with `do`.
abbrev pub M : Type 0 → Type 0 → Type 0
M W A = W → A × W

module _ {W A : Type 0} where
  abbrev pub pure : A → M W A
  pure a w = (a, w)

infixl 5 ◌>>=◌
abbrev pub ◌>>=◌ : {W A B : Type 0} → M W A → (A → M W B) → M W B
◌>>=◌ m f w = let (a, w') = m w in f a w'
