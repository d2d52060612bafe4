-- ===== src/Tcp/Text/Stream.antt =====
-- tcp_recv_text against the stream of the sender: the byte with each sequence number.
-- Sequence numbers do not wrap around here.
use tapip.Base.{
  ℕ, zero, suc, ◌+◌, ◌-◌, ◌^◌, ◌≤◌, ◌<◌, ◌≡◌, ◌⊎◌, inl, inr, refl, ap, ap₂, ◌∙◌, List, [], ◌∷◌,
  ◌++◌, Option, none, some, ltb, leb, if-cases, take, drop, length, arith,
}
use tapip.Tcp.{Segment, ReassHead}
use tapip.Tcp.Text.{adjacent_head}

take-take : (k n : ℕ) (xs : List ℕ) → k ≤ n → take k xs ≡ take k (take n xs)
take-take zero n xs h = refl
take-take (suc k) zero xs h = absurd (omega arith)
take-take (suc k) (suc n) [] h = refl
take-take (suc k) (suc n) (x ∷ xs) h = ap (λ r. x ∷ r) (take-take k n xs (omega arith))

module _ (stream : ℕ → ℕ) where
  -- the n bytes of the stream from a sequence number on
  abbrev pub stretch : ℕ → ℕ → List ℕ
  stretch seq zero = []
  stretch seq (suc n) = stream seq ∷ stretch (seq + 1) n

  pub length-stretch : (seq n : ℕ) → length (stretch seq n) ≡ n
  length-stretch seq zero = refl
  length-stretch seq (suc n) = ap suc (length-stretch (seq + 1) n)

  pub stretch-add :
      (seq m n l : ℕ) → m + n ≡ l → stretch seq l ≡ stretch seq m ++ stretch (seq + m) n
  stretch-add seq zero n l e = ap₂ stretch (omega arith) (omega arith)
  stretch-add seq (suc m) n zero e = absurd (omega arith)
  stretch-add seq (suc m) n (suc l) e =
      ap (λ r. stream seq ∷ r)
        (stretch-add (seq + 1) m n l (omega arith)
          ∙ ap (λ i. stretch (seq + 1) m ++ stretch i n) (omega arith))

  take-stretch : (seq k n : ℕ) → k ≤ n → take k (stretch seq n) ≡ stretch seq k
  take-stretch seq zero n h = refl
  take-stretch seq (suc k) zero h = absurd (omega arith)
  take-stretch seq (suc k) (suc n) h =
      ap (λ r. stream seq ∷ r) (take-stretch (seq + 1) k n (omega arith))

  -- The text of a segment or of an entry is that of the stream, and ends below 2 ^ 32.
  pub record IsText (seq len : ℕ) (text : List ℕ) : Type 0 where
    pub same : take len text ≡ stretch seq len
    pub enough : len ≤ length text
    pub inside : seq + len < 2 ^ 32

  pub take-IsText :
      {seq len : ℕ} {text : List ℕ} (k : ℕ)
      → IsText seq len text
      → k ≤ len
      → take k text ≡ stretch seq k
  take-IsText {seq} {len} {text} k t h =
      take-take k len text h ∙ ap (take k) t.same ∙ take-stretch seq k len h

  -- A shorter text, and one without its first k bytes.
  pub cut-IsText :
      {seq len : ℕ} {text : List ℕ} (k : ℕ) → IsText seq len text → k ≤ len → IsText seq k text
  cut-IsText k t h = record {
    same = take-IsText k t h;
    enough = omega (arith, t.enough);
    inside = omega (arith, t.inside);
  }

  pub drop-IsText :
      (k seq len len' seq' : ℕ) (text : List ℕ)
      → IsText seq len text
      → k + len' ≡ len
      → seq + k ≡ seq'
      → IsText seq' len' (drop k text)
  drop-IsText zero seq len len' seq' text t e e' = record {
    same =
        ap (λ i. take i text) {y = len} (omega arith)
        ∙ t.same
        ∙ ap₂ stretch (omega arith) (omega arith);
    enough = omega (arith, t.enough);
    inside = omega (arith, t.inside);
  }
  drop-IsText (suc k) seq zero len' seq' text t e e' = absurd (omega arith)
  drop-IsText (suc k) seq (suc len) len' seq' [] t e e' = absurd (omega (arith, t.enough))
  drop-IsText (suc k) seq (suc len) len' seq' (x ∷ text) t e e' =
      drop-IsText k (seq + 1) len len' seq' text
        (record {
          same = ap (drop 1) t.same;
          enough = omega (arith, t.enough);
          inside = omega (arith, t.inside);
        })
        (omega arith) (omega arith)

  abbrev pub IsSegment : Segment → Type 0
  IsSegment seg = IsText seg.seg_seq seg.dlen seg.text

  abbrev pub IsEntry : ReassHead → Type 0
  IsEntry trh = IsText trh.trh_seq trh.trh_len trh.trh_data

  -- The entries are texts of the stream in ascending order, apart from each other and none below a
  -- sequence number.
  abbrev pub AreApart : ℕ → List ReassHead → Type 0
  AreApart from [] = Unit
  AreApart from (trh ∷ trhs) =
      (from ≤ trh.trh_seq) × IsEntry trh × AreApart (trh.trh_seq + trh.trh_len) trhs

  pub AreApart-le :
      {from from' : ℕ} (trhs : List ReassHead)
      → from' ≤ from
      → AreApart from trhs
      → AreApart from' trhs
  AreApart-le [] h a = tt
  AreApart-le (trh ∷ trhs) h a = (omega (arith, a.0), a.1, a.2)

  -- The entries in front of a place that begins at `to`.
  abbrev pub AreBefore : ℕ → List ReassHead → ℕ → Type 0
  AreBefore from [] to = from ≤ to
  AreBefore from (trh ∷ trhs) to =
      (from ≤ trh.trh_seq) × IsEntry trh × AreBefore (trh.trh_seq + trh.trh_len) trhs to

  pub AreApart-append :
      (from : ℕ) (before : List ReassHead) (to : ℕ) (behind : List ReassHead)
      → AreBefore from before to
      → AreApart to behind
      → AreApart from (before ++ behind)
  AreApart-append from [] to behind b a = AreApart-le behind b a
  AreApart-append from (trh ∷ before) to behind b a =
      (b.0, b.1, AreApart-append (trh.trh_seq + trh.trh_len) before to behind b.2 a)

  -- The place of a text that begins at seq is in front of an entry, or behind all and not inside the
  -- last one.
  abbrev pub HasPlace : ℕ → ℕ → List ReassHead → Type 0
  HasPlace from seq [] = from ≤ seq
  HasPlace from seq (trh ∷ trhs) =
      (seq < trh.trh_seq) ⊎ HasPlace (trh.trh_seq + trh.trh_len) seq trhs

  -- what adjacent_head has left of a segment: nothing in front of nseq, and the same end
  pub record IsRest (seg : Segment) (nseq : ℕ) (seg' : Segment) : Type 0 where
    pub segment : IsSegment seg'
    pub above : nseq ≤ seg'.seg_seq
    pub onward : seg.seg_seq ≤ seg'.seg_seq
    pub least : (seg'.seg_seq ≡ nseq) ⊎ (seg'.seg_seq ≡ seg.seg_seq)

  abbrev pub Rest : Segment → ℕ → Option Segment → Type 0
  Rest seg nseq none = Unit
  Rest seg nseq (some seg') = IsRest seg nseq seg'

  pub adjacent_head-Rest :
      (seg : Segment) (nseq : ℕ) → IsSegment seg → Rest seg nseq (adjacent_head seg nseq)
  unfolding adjacent_head
  adjacent_head-Rest seg nseq t =
      if-cases (Rest seg nseq) (ltb seg.seg_seq nseq)
        (λ l.
          if-cases (Rest seg nseq) (leb seg.dlen (nseq - seg.seg_seq)) (λ m. tt)
            (λ m. record {
              segment =
                  drop-IsText (nseq - seg.seg_seq) seg.seg_seq seg.dlen
                    (seg.dlen - (nseq - seg.seg_seq)) nseq seg.text t (ground arith) (ground arith);
              above = omega arith;
              onward = ground arith;
              least = inl refl;
            }))
        (λ l. record { segment = t; above = ground arith; onward = omega arith; least = inr refl })
