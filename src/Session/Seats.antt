-- ===== src/Session/Seats.antt =====
-- The searches over the seats.
use native.Mathlib.Decide.{ℕ_discrete}
use pega_s.Prelude.{
  ℕ, zero, suc, ◌+◌, ◌≤◌, ◌<◌, ◌≡◌, ◌⊎◌, refl, subst, Bool, true, false, Option, none, some, List,
  arith, length, load, load_in_bounds, if◌then◌else◌, Returns, Bool-cases, inl, inr,
}
use pega_s.Player.{Player}
use pega_s.Session.{first_seat}

-- What a search for the first seat from an index on finds.
abbrev pub FirstSeat : (Player → Bool) → List Player → ℕ → ℕ → Option ℕ → Type 0
FirstSeat test ps i n none =
    (j : ℕ) (q : Player) → i ≤ j → j < n → load ps j ≡ some q → test q ≡ false
FirstSeat test ps i n (some k) =
    (p : Player) × (load ps k ≡ some p)
    × (test p ≡ true)
    × (i ≤ k)
    × (k < n)
    × ((j : ℕ) (q : Player) → i ≤ j → j < k → load ps j ≡ some q → test q ≡ false)

FirstSeat-cons :
    (test : Player → Bool) (ps : List Player) (i n : ℕ) (p : Player) (found : Option ℕ)
    → load ps i ≡ some p
    → test p ≡ false
    → FirstSeat test ps (i + 1) n found
    → FirstSeat test ps i n found
FirstSeat-cons test ps i n p none here fails later = λ j q from below at. elim (ℕ_discrete j i) [
  | yes same ↦
      let at' : load ps i ≡ some q = rw (← same) at in
      let equal : p ≡ q = cc in subst (λ r. test r ≡ false) equal fails
  | no ne ↦ later j q (omega arith) below at
]
FirstSeat-cons test ps i n p (some k) here fails (r, at_k, ok, from_k, below_k, later) = (
  r,
  at_k,
  ok,
  omega arith,
  below_k,
  λ j q from below at. elim (ℕ_discrete j i) [
    | yes same ↦
        let at' : load ps i ≡ some q = rw (← same) at in
        let equal : p ≡ q = cc in subst (λ r. test r ≡ false) equal fails
    | no ne ↦ later j q (omega arith) below at
  ],
)

pub first_seat-FirstSeat :
    (test : Player → Bool) (ps : List Player) (rounds i n : ℕ)
    → i + rounds ≡ n
    → n ≤ length ps
    → Returns (first_seat test ps rounds i) (FirstSeat test ps i n)
unfolding first_seat
first_seat-FirstSeat test ps zero i n e room = (none, refl, λ j q from below. absurd (omega arith))
first_seat-FirstSeat test ps (suc rounds) i n e room =
    let (p, here) = load_in_bounds ps i (omega arith) in
    let (found, rest, later) = first_seat-FirstSeat test ps rounds (i + 1) n (omega arith) room in
    rw here (split p here found rest later (Bool-cases (test p)))
  where
    split :
        (p : Player)
        → load ps i ≡ some p
        → (found : Option ℕ) → first_seat test ps rounds (i + 1) ≡ some found
        → FirstSeat test ps (i + 1) n found
        → ((test p ≡ true) ⊎ (test p ≡ false))
        → Returns
            (if test p then some (some i) else first_seat test ps rounds (i + 1))
            (FirstSeat test ps i n)
    split p here found rest later (inl ok) = rw ok (
      some i,
      refl,
      (p, here, ok, omega arith, omega arith, λ j q from below. absurd (omega arith)),
    )
    split p here found rest later (inr fails) =
        rw fails (found, rest, FirstSeat-cons test ps i n p found here fails later)
