-- ===== src/Metadata/Ogg/Segments.antt =====
-- The segments of a page of the chosen stream.
use music_online_go.Metadata.Ogg.Pieces.{length-take_le, rest_of_body, append-cons}
use music_online_go.Metadata.Ogg.{
  comment_body, opus_head, vorbis_head, has_prefix, chosen, scan_segments, Scan, Stream, sum,
}
use music_online_go.Metadata.Bytes.{accepted, Verdict, Bytes}
use music_online_go.Metadata.Comments.{Codec}
use music_online_go.Prelude.{
  length-append, false, ==_iff, true, Option-cases, ◌==◌, sym, ◌||◌, inr, refl, ◌∙◌, ltb, inl, ap,
  arith, Bool-cases, ◌≤◌, some, ◌+◌, ◌⊎◌, [], take, drop, Option, length, ◌≡◌, ◌∷◌, ◌++◌, List, ℕ,
}
use mathlib.Core.List.{append-nil}
use mathlib.Core.Path.{subst}
use music_online_go.Metadata.Ogg.Packets.{PageAt, Inside, goes_on, completes, Open, IsChecked}

module _ (codec : Codec) (max_tag max_cover : ℕ) (stream : Stream) (serial start : ℕ)
    (carried : Bytes) where
  abbrev Passed : Type 0
  Passed = IsChecked codec max_tag max_cover stream serial start carried

  chosen_same :
      (packet : Bytes) (t : Option ℕ) → t ≡ some serial → chosen serial packet t ≡ some serial
  chosen_same packet t h =
      elim (Bool-cases (has_prefix packet vorbis_head || has_prefix packet opus_head)) [
        | inl a ↦ rw (a) refl
        | inr a ↦ rw (a) h
      ]

  module _ {position : ℕ} (page : PageAt stream serial position) (packet : Bytes)
      (opened : Open stream serial start carried position packet) where
    -- what the segments of a page may come to
    abbrev pub Progress : Verdict ⊎ Scan → Type 0
    Progress (inl v) = v ≡ accepted → Passed
    Progress (inr s) =
        (s.target ≡ some serial)
        × (s.current ≡ some serial)
        × Inside page.body packet page.segments s.packet

    pub scan_segments-Progress :
        (done segments : List ℕ) (left : Bytes) (s : Scan)
        → page.segments ≡ done ++ segments
        → left ≡ drop (sum done) page.body
        → s.target ≡ some serial
        → s.current ≡ some serial
        → Inside page.body packet done s.packet
        → Progress (scan_segments codec max_tag max_cover serial segments left s)
    unfolding scan_segments
    scan_segments-Progress done [] left s e l t c i =
        (t, c, subst (λ ns. Inside page.body packet ns s.packet) (sym (e ∙ append-nil done)) i)
    scan_segments-Progress done (segment ∷ segments) left s e l t c i =
        elim (Bool-cases (ltb (length left) segment || ltb max_tag (length s.packet + segment))) [
          | inl a ↦ rw (scan_segments, a) (λ e. cc)
          | inr a ↦ elim (Bool-cases (segment == 255)) [
            | inl b ↦
                rw (scan_segments, a, b)
                  (scan_segments-Progress (done ++ segment ∷ []) segments (drop segment left)
                    (record s { packet = s.packet ++ take segment left })
                    (e ∙ sym (append-cons done segment segments))
                    (rest_of_body done segment page.body left l) t c
                    (laced done segment left s.packet b l i))
            | inr b ↦ elim (Option-cases (comment_body (s.packet ++ take segment left))) [
              | inr (block, f) ↦
                  rw (scan_segments, a, b, f)
                    (λ e'. record {
                      position = position;
                      packet = packet;
                      opened = opened;
                      page = page;
                      done = done;
                      part = s.packet;
                      inside = i;
                      last = segment;
                      rest = segments;
                      segments = e;
                      complete = b;
                      block = block;
                      found = ap (λ x. comment_body (s.packet ++ take segment x)) (sym l) ∙ f;
                      bounded =
                          within (length s.packet) segment _
                            (omega (
                              arith,
                              length-append s.packet (take segment (drop (sum done) page.body)),
                              length-take_le segment (drop (sum done) page.body),
                            ))
                            a;
                      passed = e';
                    })
              | inl f ↦
                  rw (scan_segments, a, b, f)
                    (scan_segments-Progress (done ++ segment ∷ []) segments (drop segment left)
                      (record s {
                        packet = [];
                        target = chosen serial (s.packet ++ take segment left) s.target;
                      })
                      (e ∙ sym (append-cons done segment segments))
                      (rest_of_body done segment page.body left l)
                      (chosen_same (s.packet ++ take segment left) s.target t) c
                      (completes segment i b))
            ]
          ]
        ]
      where
        laced :
            (done : List ℕ) (n : ℕ) (left part : Bytes)
            → (n == 255) ≡ true
            → left ≡ drop (sum done) page.body
            → Inside page.body packet done part
            → Inside page.body packet (done ++ n ∷ []) (part ++ take n left)
        laced done n left part b l i = rw ((==_iff n 255).0 b, l) (goes_on i)

        within :
            (p q m : ℕ)
            → m ≤ p + q
            → (ltb (length left) q || ltb max_tag (p + q)) ≡ false
            → m ≤ max_tag
        within p q m y z = ground arith
