-- ===== src/Mpsc/Interleave/Tiles.antt =====
-- The reservations that are not yet published: they lie one after the other, in the order of the
-- exchanges, from the published tail to the reserved one.
use lock_free_ring_buffer.Prelude.{
  ℕ, ◌+◌, ◌-◌, ◌≤◌, ◌<◌, ◌≡◌, refl, sym, subst, List, [], ◌∷◌, ◌++◌, length, arith, true,
}
use lock_free_ring_buffer.Word.{u32, u16}
use lock_free_ring_buffer.Memory.{Memory}
use lock_free_ring_buffer.Record.{record_size_lem}
use lock_free_ring_buffer.Ring.{Ring}
use lock_free_ring_buffer.Ring.Spans.{message}
use lock_free_ring_buffer.Ring.Regions.{Clear, Clear-before, Clear-after, Only, Chain-Clear}
use lock_free_ring_buffer.Mpsc.{fill}
use lock_free_ring_buffer.Mpsc.Interleave.{Pending, needed_of}
use lock_free_ring_buffer.Mpsc.Interleave.Places.{Shape, total}
use lock_free_ring_buffer.Mpsc.Interleave.Fills.{Filled, fill-Only, fill-Filled, lead}

abbrev pub bytes_of : Pending → ℕ
bytes_of p = total p.place (needed_of p.parcel)

pub record Tile (m : Memory) (cap t : ℕ) (p : Pending) : Type 0 where
  pub start_at : p.place.start ≡ t
  pub small : length p.parcel.1 < u32
  pub typed : p.parcel.0 < u16
  pub shape : Shape cap p.place (needed_of p.parcel)
  pub written : p.filled ≡ true → Filled m cap p.place p.parcel.0 p.parcel.1

abbrev pub Tiles : Memory → ℕ → ℕ → List Pending → ℕ → Type 0
Tiles m cap t [] u = t ≡ u
Tiles m cap t (p ∷ ps) u = Tile m cap t p × Tiles m cap (t + bytes_of p) ps u

pub wide : (m : Memory) (cap t : ℕ) (p : Pending) → Tile m cap t p → 16 ≤ needed_of p.parcel
wide m cap t p c = omega (arith, record_size_lem (length p.parcel.1) c.small)

module _ (m : Memory) (cap : ℕ) where
  pub Tiles-le : (t : ℕ) (ps : List Pending) (u : ℕ) → Tiles m cap t ps u → t ≤ u
  Tiles-le t [] u c = omega arith
  Tiles-le t (p ∷ ps) u c = omega (arith, Tiles-le (t + bytes_of p) ps u c.1)

  pub Tiles-append :
      (t : ℕ) (ps : List Pending) (u : ℕ) (qs : List Pending) (v : ℕ)
      → Tiles m cap t ps u
      → Tiles m cap u qs v
      → Tiles m cap t (ps ++ qs) v
  Tiles-append t [] u qs v c d = subst (λ x. Tiles m cap x qs v) (sym c) d
  Tiles-append t (p ∷ ps) u qs v c d = (c.0, Tiles-append (t + bytes_of p) ps u qs v c.1 d)

  pub Tiles-split :
      (t : ℕ) (ps qs : List Pending) (v : ℕ)
      → Tiles m cap t (ps ++ qs) v
      → (u : ℕ) × Tiles m cap t ps u × Tiles m cap u qs v
  Tiles-split t [] qs v c = (t, refl, c)
  Tiles-split t (p ∷ ps) qs v c =
      let rest = Tiles-split (t + bytes_of p) ps qs v c.1 in (rest.0, (c.0, rest.1), rest.2)

-- A write elsewhere leaves the reservations as they are.
module _ (cap : ℕ) (pos : 0 < cap) (m m' : Memory) (a n : ℕ) (only : Only cap a n m m') where
  pub Tile-Clear :
      (t : ℕ) (p : Pending) → Clear cap t (bytes_of p) a n → Tile m cap t p → Tile m' cap t p
  Tile-Clear t p clear c = record {
    start_at = c.start_at;
    small = c.small;
    typed = c.typed;
    shape = c.shape;
    written = λ e.
        let f = c.written e in
        let s = c.start_at in
        record {
          number = f.number;
          lead_at =
              Chain-Clear cap pos m m' a n only p.place.start (lead p.place)
                (p.place.start + p.place.padding)
                (λ y d h₁ h₂. clear y d (omega arith) (omega arith)) f.lead_at;
          at =
              (Chain-Clear cap pos m m' a n only (p.place.start + p.place.padding) (message _ ∷ [])
                (p.place.start + p.place.padding + needed_of p.parcel)
                (λ y d h₁ h₂. clear y d (omega arith) (omega arith)) (f.at, refl)).0;
        };
  }

  pub Tiles-Clear :
      (t : ℕ) (ps : List Pending) (u : ℕ)
      → Clear cap t (u - t) a n
      → Tiles m cap t ps u
      → Tiles m' cap t ps u
  Tiles-Clear t [] u clear c = c
  Tiles-Clear t (p ∷ ps) u clear c =
      let end = Tiles-le m cap (t + bytes_of p) ps u c.1 in
      (
        Tile-Clear t p (λ y d h₁ h₂. clear y d h₁ (omega arith)) c.0,
        Tiles-Clear (t + bytes_of p) ps u (λ y d h₁ h₂. clear y d (omega arith) (omega arith)) c.1,
      )

-- The ring after the fill of a reservation.
abbrev pub filled_ring : Ring → Pending → Ring
filled_ring r p = fill r p.place (length p.parcel.1) p.parcel.0 p.parcel.1

module _ (r : Ring) (pos : 0 < r.capacity) (t : ℕ) (before : List Pending) (p : Pending)
    (after : List Pending) (u : ℕ) (window : u ≤ t + r.capacity)
    (tiles : Tiles r.bytes r.capacity t (before ++ p ∷ after) u) where
  abbrev parts :
      (s : ℕ) × Tiles r.bytes r.capacity t before s × Tiles r.bytes r.capacity s (p ∷ after) u
  parts = Tiles-split r.bytes r.capacity t before (p ∷ after) u tiles

  abbrev start : ℕ
  start = parts.0

  own : Tile r.bytes r.capacity start p
  own = parts.2.0

  early : t ≤ start
  early = Tiles-le r.bytes r.capacity t before start parts.1

  late : start + bytes_of p ≤ u
  late = Tiles-le r.bytes r.capacity (start + bytes_of p) after u parts.2.1

  only : Only r.capacity start (bytes_of p) r.bytes (filled_ring r p).bytes
  only =
      subst (λ s. Only r.capacity s (bytes_of p) r.bytes (filled_ring r p).bytes) own.start_at
        (fill-Only r p.place p.parcel.0 p.parcel.1 pos own.shape own.small own.typed)

  -- A fill changes nothing of what is published.
  pub fill-published :
      (start' : ℕ) × (n : ℕ) × (t ≤ start')
      × (start' + n ≤ u)
      × Only r.capacity start' n r.bytes (filled_ring r p).bytes
  fill-published = (start, bytes_of p, early, late, only)

  -- A fill, in whatever order, leaves the other reservations as they are.
  pub Tiles-fill :
      Tiles (filled_ring r p).bytes r.capacity t (before ++ record p { filled = true } ∷ after) u
  Tiles-fill =
      Tiles-append (filled_ring r p).bytes r.capacity t before start _ u
        (Tiles-Clear r.capacity pos r.bytes (filled_ring r p).bytes start (bytes_of p) only t before
          start
          (Clear-before r.capacity t (start - t) start (bytes_of p) pos (omega (arith, early))
            (omega (arith, late)))
          parts.1)
        (
          record {
            start_at = own.start_at;
            small = own.small;
            typed = own.typed;
            shape = own.shape;
            written =
                λ e. fill-Filled r p.place p.parcel.0 p.parcel.1 pos own.shape own.small own.typed;
          },
          Tiles-Clear r.capacity pos r.bytes (filled_ring r p).bytes start (bytes_of p) only
              (start + bytes_of p) after u
              (Clear-after r.capacity (start + bytes_of p) (u - (start + bytes_of p)) start
                (bytes_of p) pos (omega arith) (omega (arith, early, late)))
              parts.2.1,
        )
