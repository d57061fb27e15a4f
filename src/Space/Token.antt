-- ===== src/Space/Token.antt =====
-- SpaceMap::Token: the top bit says that an entry starts here, the low seven bits how many free
-- blocks this token stands for.
use Prim.Native.Nat.{bit_and, bit_or}
use kvdk.Prelude.{
  ℕ, zero, suc, ◌<◌, ◌≡◌, refl, Bool, true, false, not, ◌&&◌, arith, ◌==◌, if◌then◌else◌,
}

-- INT8_MAX
abbrev pub int8_max : ℕ
int8_max = 127

abbrev pub Token : Type 0
Token = ℕ

unfoldable pub make : Bool → ℕ → Token
make is_start size = bit_or size (if is_start then 128 else 0)

unfoldable pub size_of : Token → ℕ
size_of t = bit_and t int8_max

unfoldable pub is_empty : Token → Bool
unfolding size_of
is_empty t = size_of t == 0

unfoldable pub is_start : Token → Bool
is_start t = not (bit_and t 128 == 0)

-- Clear
abbrev pub clear : Token
clear = 0

abbrev fits : ℕ → Bool
fits s =
    (size_of (make true s) == s)
    && (size_of (make false s) == s)
    && is_start (make true s)
    && not (is_start (make false s))

all_fit : ℕ → Bool
all_fit zero = true
all_fit (suc n) = fits n && all_fit n

all_fit_sound : (n s : ℕ) → all_fit n ≡ true → s < n → fits s ≡ true
unfolding all_fit
all_fit_sound zero s h lt = absurd (omega arith)
all_fit_sound (suc n) s h lt = ground (arith, all_fit_sound n s)

all_fit_table : all_fit 128 ≡ true
unfolding all_fit make size_of is_start
all_fit_table = refl

module _ (s : ℕ) (h : s < 128) where
  token_fits : fits s ≡ true
  token_fits = all_fit_sound 128 s all_fit_table h

  pub size_of-make : (b : Bool) → size_of (make b s) ≡ s
  size_of-make true = ground (arith, token_fits)
  size_of-make false = ground (arith, token_fits)

  pub is_start-make : (b : Bool) → is_start (make b s) ≡ b
  is_start-make true = ground (arith, token_fits)
  is_start-make false = ground (arith, token_fits)

pub is_empty_iff : (t : Token) → is_empty t ≡ (size_of t == 0)
unfolding is_empty
is_empty_iff t = refl

pub size_of-clear : size_of clear ≡ 0
unfolding size_of
size_of-clear = refl

pub is_start-clear : is_start clear ≡ false
unfolding is_start
is_start-clear = refl
