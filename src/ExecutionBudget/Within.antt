-- ===== src/ExecutionBudget/Within.antt =====
-- The usage stays within the limits, whatever is reserved and released.
use reverb_impact.Base.{
  ℕ, ◌≤◌, ◌≡◌, inl, inr, Bool, false, ◌||◌, List, [], ◌∷◌, arith, ◌∙◌, ok, >>=-eq-ok, Result-cases,
  Bool-cases,
}
use reverb_impact.Ports.{Number, amount_of, valid_non_negative_integer}
use reverb_impact.ExecutionBudget.{
  Reservable, known, unknown, Budget, Delta, used, limit, reservation_entries, exhausted_result,
  reserve, release, complete,
}
use reverb_impact.ExecutionBudget.Totals.{
  same_key, mentions, HasDistinctKeys, used-add_all, first_exceeded_fits, used-subtract_all,
}

abbrev pub Within : Budget → Type 0
Within b = (k : Reservable) → used k b.usage ≤ limit k b.limits

-- The keys of an object are distinct.
abbrev delta_mentions : Reservable → Delta → Bool
delta_mentions k [] = false
delta_mentions k ((known j, amount) ∷ delta) = same_key k j || delta_mentions k delta
delta_mentions k ((unknown name, amount) ∷ delta) = delta_mentions k delta

abbrev pub IsObject : Delta → Type 0
IsObject [] = Unit
IsObject ((known j, amount) ∷ delta) = (delta_mentions j delta ≡ false) × IsObject delta
IsObject ((unknown name, amount) ∷ delta) = IsObject delta

reservation_entries-cons :
    (j : Reservable) (amount : Number) (delta : Delta) {entries : List (Reservable × ℕ)}
    → reservation_entries ((known j, amount) ∷ delta) ≡ ok entries
    → (rest : List (Reservable × ℕ)) × (reservation_entries delta ≡ ok rest)
      × (entries ≡ (j, amount_of amount) ∷ rest)
unfolding reservation_entries
reservation_entries-cons j amount delta e = elim (Bool-cases (valid_non_negative_integer amount)) [
  | inl valid ↦
      let (rest, found, last) = >>=-eq-ok (reservation_entries delta) _ (rw valid at e) in
      (rest, found, cc)
  | inr bad ↦ cc (rw bad at e)
]

mentions-reservation_entries :
    (k : Reservable) (delta : Delta) (entries : List (Reservable × ℕ))
    → reservation_entries delta ≡ ok entries
    → mentions k entries ≡ delta_mentions k delta
unfolding reservation_entries
mentions-reservation_entries k [] entries e = ground arith
mentions-reservation_entries k ((unknown name, amount) ∷ delta) entries e = cc
mentions-reservation_entries k ((known j, amount) ∷ delta) entries e =
    let (rest, found, same) = reservation_entries-cons j amount delta e in
    rw same (ground (arith, mentions-reservation_entries k delta rest found))

pub reservation_entries-HasDistinctKeys :
    (delta : Delta) (entries : List (Reservable × ℕ))
    → IsObject delta
    → reservation_entries delta ≡ ok entries
    → HasDistinctKeys entries
unfolding reservation_entries
reservation_entries-HasDistinctKeys [] entries d e = ground arith
reservation_entries-HasDistinctKeys ((unknown name, amount) ∷ delta) entries d e = cc
reservation_entries-HasDistinctKeys ((known j, amount) ∷ delta) entries (absent, d) e =
    let (rest, found, same) = reservation_entries-cons j amount delta e in
    rw same (
      mentions-reservation_entries j delta rest found ∙ absent,
      reservation_entries-HasDistinctKeys delta rest d found,
    )

module _ (delta : Delta) (now later : ℕ) (b : Budget) (object : IsObject delta)
    (within : Within b) where
  -- `reserve` never leaves the object over a limit.
  pub reserve-Within : Within (reserve delta now later b).0
  unfolding reserve exhausted_result
  reserve-Within k = elim (Result-cases (reservation_entries delta)) [
    | inr (e, thrown) ↦ rw (thrown, reserve) (within k)
    | inl (entries, found) ↦
        let d = reservation_entries-HasDistinctKeys delta entries object found in
        rw (found, reserve)
          (ground (
            arith,
            within k,
            used-add_all k entries b.usage,
            first_exceeded_fits k entries b.usage b.limits d,
          ))
  ]

  pub release-Within : Within (release delta b).0
  unfolding release
  release-Within k = elim (Result-cases (reservation_entries delta)) [
    | inr (e, thrown) ↦ rw (thrown, release) (within k)
    | inl (entries, found) ↦
        rw (found, release) (ground (arith, within k, used-subtract_all k entries b.usage))
  ]

pub complete-Within :
    (completed_at : ℕ) (b : Budget) → Within b → Within (complete completed_at b).0
unfolding complete
complete-Within completed_at b within k = ground (arith, within k)

-- The calls that a client can make, with the readings of the clock.
pub data Call : Type 0 where
  reserving : Delta → ℕ → ℕ → Call
  releasing : Delta → Call
  completing : ℕ → Call

abbrev pub perform : Call → Budget → Budget
perform (reserving delta now later) b = (reserve delta now later b).0
perform (releasing delta) b = (release delta b).0
perform (completing at) b = (complete at b).0

abbrev pub perform_all : List Call → Budget → Budget
perform_all [] b = b
perform_all (c ∷ calls) b = perform_all calls (perform c b)

abbrev pub PassesObjects : Call → Type 0
PassesObjects (reserving delta now later) = IsObject delta
PassesObjects (releasing delta) = IsObject delta
PassesObjects (completing at) = Unit
