-- ===== src/Proactive/Debounce/Bursts.antt =====
-- One timer waits at most, and a burst of saves fires once.
use josu.Common.{
  ℕ, zero, suc, ◌+◌, true, false, Option, none, some, List, [], ◌∷◌, ◌≡◌, refl, ◌∙◌, ap, arith,
  contains, ◌==◌, eq_nat, nat_eq_iff, inl, inr, Bool-cases, Option-cases, if◌then◌else◌,
}
use josu.Proactive.Debounce.{
  Watcher, new_watcher, on_save, expire, Event, saves, expires, step, run,
}

-- What `_cancel_pending` would cancel is just what waits.
abbrev pub pending : Option ℕ → List ℕ
pending none = []
pending (some timer) = timer ∷ []

abbrev pub IsQuiet : Watcher → Type 0
IsQuiet w = w.waiting ≡ pending w.cancel_pending

IsQuiet-on_save : (w : Watcher) → IsQuiet w → IsQuiet (on_save w)
unfolding on_save
IsQuiet-on_save w h = elim (Option-cases w.cancel_pending) [
  | inl idle ↦ ground arith
  | inr (timer, p) ↦ ground (arith, nat_eq_iff timer timer)
]

IsQuiet-expire : (timer : ℕ) (w : Watcher) → IsQuiet w → IsQuiet (expire timer w)
unfolding expire
IsQuiet-expire timer w h = elim (Option-cases w.cancel_pending) [
  | inl idle ↦ ground arith
  | inr (t, p) ↦ ground (arith, nat_eq_iff timer t, nat_eq_iff t timer)
]

IsQuiet-run : (es : List Event) (w : Watcher) → IsQuiet w → IsQuiet (run es w)
unfolding run step
IsQuiet-run [] w h = h
IsQuiet-run (saves ∷ es) w h = IsQuiet-run es (on_save w) (IsQuiet-on_save w h)
IsQuiet-run (expires t ∷ es) w h = IsQuiet-run es (expire t w) (IsQuiet-expire t w h)

-- Some saves in a row, and some expiries of timers.
unfoldable pub burst : ℕ → List Event
burst zero = []
burst (suc n) = saves ∷ burst n

unfoldable pub expiries : List ℕ → List Event
expiries [] = []
expiries (t ∷ ts) = expires t ∷ expiries ts

run-burst :
    (n : ℕ) (w : Watcher)
    → ((run (burst (suc n)) w).cancel_pending ≡ some (w.next_timer + n))
      × ((run (burst (suc n)) w).fired ≡ w.fired)
unfolding run step on_save burst
run-burst zero w = (ap some (omega arith), refl)
run-burst (suc n) w =
    let (last, same) = run-burst n (on_save w) in (last ∙ ap some (omega arith), same)

fired_idle : (ts : List ℕ) (w : Watcher) → w.waiting ≡ [] → (run (expiries ts) w).fired ≡ w.fired
unfolding run step expire expiries
fired_idle [] w h = refl
fired_idle (t ∷ ts) w h =
    ap (λ x. (run (expiries ts) x).fired) (expire_idle t w h) ∙ fired_idle ts w h
  where
    expire_idle : (t : ℕ) (w : Watcher) → w.waiting ≡ [] → expire t w ≡ w
    expire_idle t w h = ground arith

expire_last :
    (t last : ℕ) (w : Watcher)
    → w.waiting ≡ last ∷ []
    → (last == t) ≡ true
    → ((expire t w).waiting ≡ []) × ((expire t w).fired ≡ w.fired + 1)
unfolding expire
expire_last t last w h this = (
  ground (arith, nat_eq_iff last t, nat_eq_iff t last),
  ground (arith, nat_eq_iff last t, nat_eq_iff t last),
)

expire_foreign :
    (t last : ℕ) (w : Watcher) → w.waiting ≡ last ∷ [] → (last == t) ≡ false → expire t w ≡ w
unfolding expire
expire_foreign t last w h foreign = ground (arith, nat_eq_iff last t, nat_eq_iff t last)

fired-expiries :
    (ts : List ℕ) (last : ℕ) (w : Watcher)
    → w.waiting ≡ last ∷ []
    → (run (expiries ts) w).fired ≡ w.fired + (if contains ts last then 1 else 0)
unfolding run step expiries
fired-expiries [] last w h = omega arith
fired-expiries (t ∷ ts) last w h = elim (Bool-cases (last == t)) [
  | inl this ↦
      let (gone, once) = expire_last t last w h this in
      fired_idle ts (expire t w) gone ∙ once ∙ ground arith
  | inr foreign ↦
      ap (λ x. (run (expiries ts) x).fired) (expire_foreign t last w h foreign)
      ∙ fired-expiries ts last w h
      ∙ ground arith
]

-- From any state that saves and expiries lead a new watcher to, a burst of saves fires just once,
-- when the timer of its last save expires: no timer of an earlier save fires any more, in whatever
-- order and how often the timers expire.
pub fired-burst :
    (es : List Event) (n : ℕ) (timers : List ℕ)
    → let w = run es new_watcher in
      (run (expiries timers) (run (burst (suc n)) w)).fired
      ≡ w.fired + (if contains timers (w.next_timer + n) then 1 else 0)
fired-burst es n timers =
    let w = run es new_watcher in
    let (last, same) = run-burst n w in
    let quiet = IsQuiet-run (burst (suc n)) w (IsQuiet-run es new_watcher refl) in
    fired-expiries timers (w.next_timer + n) (run (burst (suc n)) w) (quiet ∙ ap pending last)
    ∙ ap (λ f. f + (if contains timers (w.next_timer + n) then 1 else 0)) same
