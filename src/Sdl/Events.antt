-- ===== src/Sdl/Events.antt =====
-- Where `sdl_pull_events` leaves the guest's ring of events.
use switch_v.Common.{ℕ, ◌+◌, ◌-◌, ◌*◌, ◌%◌, ◌^◌, ◌<◌, ◌≤◌, ◌≡◌, refl, arith, Bool, true, false}
use switch_v.Common.{List, [], ◌∷◌, ltb, ◌==◌, if◌then◌else◌}
use native.Mathlib.Nat.{pow-le-pow_right, mod_self, mod-eq_of_lt}
use switch_v.Common.{◌∙◌}
use switch_v.Common.Bits.{bit_and_low}
use switch_v.Common.Word.{u32}
use switch_v.Common.Outcome.{Outcome, ok, stop, Holds, Holds-intro, Holds->>=, Holds-if, ◌>>=◌}
use switch_v.Memory.{Memory, mem_wb_ptr_s}
use switch_v.Sdl.{SdlLib, SdlEvent, is_input, next_idx, Pulled, pull_loop}

-- The index `n` places after another one in a ring, and the places that a ring has before `tail`.
abbrev pub place : ℕ → ℕ → ℕ → ℕ
place size idx n = if ltb (idx + n) size then idx + n else idx + n - size

abbrev pub room : ℕ → ℕ → ℕ → ℕ
room size idx tail = if ltb idx tail then tail - idx - 1 else tail + size - idx - 1

Holds-map :
    {A : Type 0} (P Q : A → Type 0)
    → ((a : A) → P a → Q a)
    → (r : Outcome A) → Holds P r
    → Holds Q r
Holds-map P Q f (ok a) h = f a h
Holds-map P Q f (stop e) h = tt

-- A step of the index in a ring of `size` places.
abbrev pub IsStep : ℕ → ℕ → Type 0
IsStep size mask = (idx : ℕ) → idx < size → next_idx mask idx ≡ place size idx 1

pub pow_IsStep : (k : ℕ) → k < 32 → IsStep (2 ^ k) (2 ^ k - 1)
pow_IsStep k h idx l =
    let below : 2 ^ k ≤ 2 ^ 31 =
      pow-le-pow_right {n = 2} (omega arith) {i = k} {j = 31} (omega arith) in
    let low : u32 (idx + 1) ≡ idx + 1 = omega arith in
    rw (low, bit_and_low k (idx + 1)) (at (ltb (idx + 1) (2 ^ k)) refl)
  where
    at :
        (b : Bool)
        → ltb (idx + 1) (2 ^ k) ≡ b
        → (idx + 1) % 2 ^ k ≡ (if b then idx + 1 else idx + 1 - 2 ^ k)
    at true e = mod-eq_of_lt (ground arith)
    at false e =
        let whole : idx + 1 ≡ 2 ^ k = ground arith in rw whole (mod_self (2 ^ k) ∙ omega arith)

-- How far a loop came: by `n` places from its index, none of which is the tail's.
pub record Moved (size tail idx i : ℕ) (p : Pulled) : Type 0 where
  pub moved : ℕ
  pub count : p.count ≡ i + moved
  pub index : p.idx ≡ place size idx moved
  pub fits : moved ≤ room size idx tail

module _ (lib : SdlLib) (events mask size tail : ℕ) (step : IsStep size mask)
    (tail_in : tail < size) where
  stays :
      (idx i : ℕ) (p : Pulled) → idx < size → p.count ≡ i → p.idx ≡ idx → Moved size tail idx i p
  stays idx i p h c e = record {
    moved = 0;
    count = omega arith;
    index = ground arith;
    fits = omega arith;
  }

  moves :
      (idx i : ℕ) (p : Pulled)
      → idx < size
      → (place size idx 1 == tail) ≡ false
      → Moved size tail (place size idx 1) (i + 1) p
      → Moved size tail idx i p
  moves idx i p h free w =
      let c : p.count ≡ i + 1 + w.moved = w.count in
      let x : p.idx ≡ place size (place size idx 1) w.moved = w.index in
      let f : w.moved ≤ room size (place size idx 1) tail = w.fits in
      record { moved = 1 + w.moved; count = omega arith; index = ground arith; fits = ground arith }

  -- A round of the loop, with what the rest of it does.
  round :
      (go_on : Memory → ℕ → ℕ → Outcome Pulled) (e : SdlEvent) (rest : List SdlEvent) (m : Memory)
      (idx i : ℕ)
      → idx < size
      → ((m' : Memory) (idx' i' : ℕ)
          → idx' < size
          → Holds (Moved size tail idx' i') (go_on m' idx' i'))
      → (b : Bool) → (next_idx mask idx == tail) ≡ b
      → Holds (Moved size tail idx i) (
          if b
          then ok (record { mem = m; idx = idx; count = i; queue = rest })
          else if is_input lib e
          then (mem_wb_ptr_s m (events + idx * lib.event_size) e.bytes >>= λ m'.
              go_on m' (next_idx mask idx) (i + 1))
          else go_on m idx i)
  round go_on e rest m idx i h k true full = stays idx i _ h refl refl
  round go_on e rest m idx i h k false free =
      let free' : (place size idx 1 == tail) ≡ false = rw (← step idx h) free in
      Holds-if (Moved size tail idx i) (is_input lib e) _ _
        (Holds->>= (λ (x : Memory). Unit {0}) (Moved size tail idx i)
          (mem_wb_ptr_s m (events + idx * lib.event_size) e.bytes) _ (Holds-intro _ _ (λ x y. tt))
          (λ m' u.
            Holds-map _ _ (λ p. moves idx i p h free') (go_on m' (next_idx mask idx) (i + 1))
              (rw (step idx h) (k m' (place size idx 1) (i + 1) (ground arith)))))
        (k m idx i h)

  pull_loop-Moved :
      (queue : List SdlEvent) (m : Memory) (idx i : ℕ)
      → idx < size
      → Holds (Moved size tail idx i) (pull_loop lib events mask tail queue m idx i)
  unfolding pull_loop
  pull_loop-Moved [] m idx i h = stays idx i _ h refl refl
  pull_loop-Moved (e ∷ rest) m idx i h =
      round (pull_loop lib events mask tail rest) e rest m idx i h (pull_loop-Moved rest)
        (next_idx mask idx == tail) refl

-- With a ring of 2 ^ k places, k below 32, and the head and the tail inside of it, the loop moves
-- the head on by as many places as it counts events, round the end of the ring, and by no more than
-- are free, one being left empty; so it never meets the tail.
pub pull_loop_lem :
    (lib : SdlLib) (events k tail : ℕ) (queue : List SdlEvent) (m : Memory) (idx : ℕ)
    → k < 32
    → tail < 2 ^ k
    → idx < 2 ^ k
    → Holds
        (λ (p : Pulled). (p.idx ≡ place (2 ^ k) idx p.count) × (p.count ≤ room (2 ^ k) idx tail))
        (pull_loop lib events (2 ^ k - 1) tail queue m idx 0)
pull_loop_lem lib events k tail queue m idx h l l' =
    Holds-map _ _ (λ p w. counted p w) _
      (pull_loop-Moved lib events (2 ^ k - 1) (2 ^ k) tail (pow_IsStep k h) l queue m idx 0 l')
  where
    counted :
        (p : Pulled)
        → Moved (2 ^ k) tail idx 0 p
        → (p.idx ≡ place (2 ^ k) idx p.count) × (p.count ≤ room (2 ^ k) idx tail)
    counted p w =
        let c : p.count ≡ 0 + w.moved = w.count in
        let d : p.count ≡ w.moved = omega arith in (rw d w.index, rw d w.fits)
