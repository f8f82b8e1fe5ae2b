-- ===== src/Tracker/Clock.antt =====
-- Vector clocks (transactions/tracker/Ends.hpp, transactions/tracker/Ends.cpp). A component is a
-- signed number, and -1 stands for one that is not known.
use mix_t.Base.{
  ℤ, pos, negsuc, Bool, true, false, ◌&&◌, ◌||◌, Option, none, some, List, [], ◌∷◌, leb, ◌==◌,
  if◌then◌else◌,
}

abbrev pub leb_ℤ : ℤ → ℤ → Bool
leb_ℤ (pos a) (pos b) = leb a b
leb_ℤ (pos a) (negsuc b) = false
leb_ℤ (negsuc a) (pos b) = true
leb_ℤ (negsuc a) (negsuc b) = leb b a

abbrev pub eq_ℤ : ℤ → ℤ → Bool
eq_ℤ (pos a) (pos b) = a == b
eq_ℤ (pos a) (negsuc b) = false
eq_ℤ (negsuc a) (pos b) = false
eq_ℤ (negsuc a) (negsuc b) = a == b

abbrev pub minus_one : ℤ
minus_one = negsuc 0

-- std::max: the first of two that are equal.
abbrev pub max_ℤ : ℤ → ℤ → ℤ
max_ℤ a b = if leb_ℤ b a then a else b

-- `std::array<long long, 4>`.
pub record Clock : Type 0 where
  pub c0 : ℤ
  pub c1 : ℤ
  pub c2 : ℤ
  pub c3 : ℤ

abbrev pub clock : ℤ → ℤ → ℤ → ℤ → Clock
clock a b c d = record { c0 = a; c1 = b; c2 = c; c3 = d }

-- ends::max of two clocks.
unfoldable pub max : Clock → Clock → Clock
max a b = clock (max_ℤ a.c0 b.c0) (max_ℤ a.c1 b.c1) (max_ℤ a.c2 b.c2) (max_ℤ a.c3 b.c3)

abbrev pub max_from : Clock → List Clock → Clock
max_from ret [] = ret
max_from ret (c ∷ cs) = max_from (max ret c) cs

-- ends::max of a range.
unfoldable pub max_range : List Clock → Clock
max_range cs = max_from (clock minus_one minus_one minus_one minus_one) cs

unfoldable pub is_same : Clock → Clock → Bool
is_same a b = eq_ℤ a.c0 b.c0 && (eq_ℤ a.c1 b.c1 && (eq_ℤ a.c2 b.c2 && eq_ℤ a.c3 b.c3))

-- One round of the loop of ends::prec, and the rounds behind it; `none` is a failed assert.
abbrev prec_round : ℤ → ℤ → Option Bool → Option Bool
prec_round a b rest =
    if eq_ℤ a minus_one || eq_ℤ b minus_one then none else if leb_ℤ a b then rest else some false

unfoldable pub prec : Clock → Clock → Option Bool
prec a b =
    prec_round a.c0 b.c0
      (prec_round a.c1 b.c1 (prec_round a.c2 b.c2 (prec_round a.c3 b.c3 (some true))))

-- std::array's operator<, which compares lexicographically.
unfoldable pub array_less : Clock → Clock → Bool
array_less a b = less_at a.c0 b.c0 (less_at a.c1 b.c1 (less_at a.c2 b.c2 (less_at a.c3 b.c3 false)))
  where
    less_at : ℤ → ℤ → Bool → Bool
    less_at x y rest = if leb_ℤ y x then (if leb_ℤ x y then rest else false) else true
