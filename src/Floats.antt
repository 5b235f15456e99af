-- ===== src/Floats.antt =====
-- Python's floats: a parameter of the scheduler's model. `Floats` has the operations that the code
-- uses, `FloatLaws` what holds of the order of floats other than NaN.
use g_io_t_edge_gateway.Prelude.{
  Bool, false, if◌then◌else◌, ltb, nat_eq, not, string_eq, true, ℕ, ◌≡◌, ◌⊎◌,
}

pub record Floats : Type 1 where
  pub Float : Type 0
  -- `<`, `<=` and `==`.
  pub lt : Float → Float → Bool
  pub le : Float → Float → Bool
  pub eq : Float → Float → Bool
  pub add : Float → Float → Float
  pub sub : Float → Float → Float
  pub mul : Float → Float → Float
  pub div : Float → Float → Float
  -- `lit n k` is the literal n / 10 ^ k.
  pub lit : ℕ → ℕ → Float
  pub minus_one : Float
  -- `round(x, 4)`.
  pub round : Float → Float

-- `max(a, b)` and `min(a, b)`: the first one unless the second is beyond it.
abbrev pub float_max : (f : Floats) → f.Float → f.Float → f.Float
float_max f a b = if f.lt a b then b else a

abbrev pub float_min : (f : Floats) → f.Float → f.Float → f.Float
float_min f a b = if f.lt b a then b else a

pub record FloatLaws (f : Floats) : Type 0 where
  pub lt_irrefl : (a : f.Float) → f.lt a a ≡ false
  pub lt_trans : (a b c : f.Float) → f.lt a b ≡ true → f.lt b c ≡ true → f.lt a c ≡ true
  pub lt_compare : (a b c : f.Float) → f.lt a c ≡ true → (f.lt a b ≡ true) ⊎ (f.lt b c ≡ true)
  pub le_lt : (a b : f.Float) → f.le a b ≡ not (f.lt b a)
  -- Literals of one exponent compare as their numerators.
  pub lt_lit : (m n k : ℕ) → f.lt (f.lit m k) (f.lit n k) ≡ ltb m n
  pub minus_one_lit : (n k : ℕ) → f.lt f.minus_one (f.lit n k) ≡ true
