-- ===== src/Tcp/Text/Place.antt =====
-- The first two loops of tcp_segment_reass: the place of a segment among the entries.
use tapip.Base.{
  ℕ, ◌+◌, ◌-◌, ◌≤◌, ◌<◌, ◌≡◌, ◌⊎◌, inl, inr, refl, List, [], ◌∷◌, Option, none, some, ◌==◌, ltb,
  if-cases, add32, sub32, arith,
}
use tapip.Tcp.{Segment, ReassHead}
use tapip.Tcp.Text.{adjacent_head, reass_place, drop_covered}
use tapip.Tcp.Text.Stream.{
  IsSegment, IsEntry, AreApart, AreApart-le, AreBefore, HasPlace, Rest, adjacent_head-Rest,
  cut-IsText,
}

module _ (stream : ℕ → ℕ) where
  -- What the first loop has found: the entries are still there in order, and the segment, without
  -- what the entry in front of it holds, begins between the two parts.
  abbrev pub IsFound : ℕ → Option Segment → List ReassHead → List ReassHead → Type 0
  IsFound from none before behind = Unit
  IsFound from (some seg) before behind =
      IsSegment stream seg
      × AreBefore stream from before seg.seg_seq
      × AreApart stream seg.seg_seq behind

  abbrev pub Found : ℕ → Option Segment × List ReassHead × List ReassHead → Type 0
  Found from r = IsFound from r.0 r.1 r.2

  -- The segment without what the entry in front of it holds, in front of an entry.
  first_place :
      (seg : Segment) (prev_end from : ℕ) (trh : ReassHead) (trhs : List ReassHead)
      → IsSegment stream seg
      → AreApart stream from (trh ∷ trhs)
      → (prev_end ≡ from) ⊎ ((prev_end ≤ from) × (from ≤ seg.seg_seq))
      → seg.seg_seq < trh.trh_seq
      → (o : Option Segment) → Rest stream seg prev_end o
      → IsFound from o [] (trh ∷ trhs)
  first_place seg prev_end from trh trhs t a p l none r = tt
  first_place seg prev_end from trh trhs t a p l (some seg') r = (
    r.segment,
    ground (arith, r.above, r.onward, p),
    (ground (arith, r.least, p, l, a.0), a.1, a.2),
  )

  behind_entry :
      (from : ℕ) (trh : ReassHead)
      → from ≤ trh.trh_seq
      → IsEntry stream trh
      → (o : Option Segment) (before behind : List ReassHead)
      → IsFound (trh.trh_seq + trh.trh_len) o before behind
      → IsFound from o (trh ∷ before) behind
  behind_entry from trh h e none before behind f = tt
  behind_entry from trh h e (some seg) before behind f = (f.0, (h, e, f.1), f.2)

  pub reass_place-Found :
      (seg : Segment) (prev_end from : ℕ) (trhs : List ReassHead)
      → IsSegment stream seg
      → AreApart stream from trhs
      → (prev_end ≡ from) ⊎ ((prev_end ≤ from) × (from ≤ seg.seg_seq))
      → HasPlace stream from seg.seg_seq trhs
      → Found from (reass_place seg prev_end trhs)
  unfolding reass_place
  reass_place-Found seg prev_end from [] t a p h = (t, h, tt)
  reass_place-Found seg prev_end from (trh ∷ trhs) t a p h =
      let e : add32 trh.trh_seq trh.trh_len ≡ trh.trh_seq + trh.trh_len =
        omega (arith, a.1.inside) in
      let rest = reass_place seg (add32 trh.trh_seq trh.trh_len) trhs in
      if-cases (Found from) (ltb seg.seg_seq trh.trh_seq)
        (λ l.
          first_place seg prev_end from trh trhs t a p (ground arith) (adjacent_head seg prev_end)
            (adjacent_head-Rest stream seg prev_end t))
        (λ l. behind_entry from trh a.0 a.1 rest.0 rest.1 rest.2 (
          reass_place-Found seg (add32 trh.trh_seq trh.trh_len) (trh.trh_seq + trh.trh_len) trhs t
            a.2 (inl e) (elim h [ inl below ↦ absurd (ground arith) | inr h' ↦ h' ])))

  -- What the second loop has left: the segment, cut, in front of entries that it does not touch.
  abbrev pub IsCut : ℕ → Option Segment × List ReassHead → Type 0
  IsCut from (none, behind) = AreApart stream from behind
  IsCut from (some seg, behind) =
      IsSegment stream seg × (seg.seg_seq ≡ from) × AreApart stream (seg.seg_seq + seg.dlen) behind

  pub drop_covered-IsCut :
      (seg : Segment) (trhs : List ReassHead)
      → IsSegment stream seg
      → AreApart stream seg.seg_seq trhs
      → IsCut seg.seg_seq (drop_covered seg trhs)
  unfolding drop_covered
  drop_covered-IsCut seg [] t a = (t, refl, tt)
  drop_covered-IsCut seg (trh ∷ trhs) t a =
      let e : add32 trh.trh_seq trh.trh_len ≡ trh.trh_seq + trh.trh_len =
        omega (arith, a.1.inside) in
      let e' : add32 seg.seg_seq seg.dlen ≡ seg.seg_seq + seg.dlen = omega (arith, t.inside) in
      let d : sub32 trh.trh_seq seg.seg_seq ≡ trh.trh_seq - seg.seg_seq =
        omega (arith, a.0, a.1.inside) in
      let rest = drop_covered-IsCut seg trhs t (AreApart-le stream trhs (omega (arith, a.0)) a.2) in
      if-cases (IsCut seg.seg_seq)
        (ltb (add32 seg.seg_seq seg.dlen) (add32 trh.trh_seq trh.trh_len))
        (λ l.
          if-cases (IsCut seg.seg_seq) (ltb trh.trh_seq (add32 seg.seg_seq seg.dlen))
            (λ m.
              if-cases (IsCut seg.seg_seq) (sub32 trh.trh_seq seg.seg_seq == 0) (λ z. a)
                (λ z. (
                  cut-IsText stream (sub32 trh.trh_seq seg.seg_seq) t (ground (arith, e', d)),
                  refl,
                  (omega (arith, d, a.0), a.1, a.2),
                )))
            (λ m. (t, refl, (ground (arith, e'), a.1, a.2))))
        (λ l. rest)
