-- ===== src/Metadata/Ogg/Comments.antt =====
-- What it takes for the check of an Ogg file to accept it.
use music_online_go.Metadata.Ogg.Segments.{Progress, scan_segments-Progress}
use music_online_go.Metadata.Ogg.{
  failed, ended, page_marker, whole, read_full, FullRead, is_other, read_page, scan_pages, next,
  stop, leave, page_body, Page, enter, scan_segments, Scan, Stream, sum,
}
use music_online_go.Metadata.Bytes.{little_endian, bytes_eq, byte, accepted, Verdict, Bytes}
use music_online_go.Metadata.Comments.{Codec}
use music_online_go.Prelude.{
  not, false, ◌*◌, true, ◌==◌, ◌||◌, inr, zero, refl, ◌∙◌, ltb, inl, suc, arith, Bool-cases, some,
  ◌+◌, ◌⊎◌, [], take, drop, ◌≡◌, ℕ,
}
use mathlib.Core.Path.{subst}
use music_online_go.Metadata.Ogg.Packets.{
  PageAt, page_end, begun, Open, started, passes, reads, IsChecked,
}

module _ (codec : Codec) (max_tag max_cover : ℕ) (stream : Stream) (serial start : ℕ)
    (carried : Bytes) where
  abbrev Passed : Type 0
  Passed = IsChecked codec max_tag max_cover stream serial start carried

  -- the loop's state between two pages
  record Carries (position : ℕ) (s : Scan) : Type 0 where
    target : s.target ≡ some serial
    opened : Open stream serial start carried position (enter serial s).packet

  enter_same : (s : Scan) → s.current ≡ some serial → (enter serial s).packet ≡ s.packet
  unfolding enter
  enter_same s c = ground arith

  enter_target : (s : Scan) → (enter serial s).target ≡ s.target
  unfolding enter
  enter_target s = ground arith

  enter_current : (s : Scan) → (enter serial s).current ≡ some serial
  unfolding enter
  enter_current s = ground arith

  abbrev Onward : Page → Type 0
  Onward (stop v) = v ≡ accepted → Passed
  Onward (next position s) = Carries position s

  leave-Onward :
      {position : ℕ} (page : PageAt stream serial position) (packet : Bytes)
      → (opened : Open stream serial start carried position packet) → (r : Verdict ⊎ Scan)
      → Progress codec max_tag max_cover stream serial start carried page packet opened r
      → Onward (leave max_tag (page_end page) r)
  unfolding leave
  leave-Onward page packet opened (inl v) h = h
  leave-Onward page packet opened (inr s) (t, c, i) =
      elim (Bool-cases (ltb (max_tag + 2 * 1024 * 1024) (page_end page))) [
        | inl a ↦ rw (a, t) (λ e. cc)
        | inr a ↦ rw (a) (record { target = t; opened = rw (enter_same s c) (reads page opened i) })
      ]

  page_of_stream :
      {position : ℕ} (page : PageAt stream serial position) (s : Scan)
      → Carries position s
      → Onward (
          leave max_tag
            (page_end page)
            (scan_segments codec max_tag max_cover serial page.segments page.body (enter serial s)))
  page_of_stream page s h = leave-Onward page (enter serial s).packet h.opened _ (
      scan_segments-Progress codec max_tag max_cover stream serial start carried page
        (enter serial s).packet h.opened [] page.segments page.body (enter serial s) refl refl
        (enter_target s ∙ h.target) (enter_current s) begun)

  page_body-Onward :
      {other position : ℕ} (page : PageAt stream other position) (s : Scan)
      → Carries position s
      → Onward (
          page_body codec stream max_tag max_cover
            (position + 27 + byte page.header 26)
            other
            page.segments
            s)
  unfolding page_body
  page_body-Onward {other} {position = position} page s h =
      elim (Bool-cases (is_other s.target other)) [
        | inl o ↦
            rw (page_body, page.has_body, o)
              (record { target = h.target; opened = passes other page h.opened (differs o) })
        | inr o ↦
            rw (page_body, page.has_body, o)
              (subst
                (λ k.
                  (page : PageAt stream k position)
                  → Onward (
                      leave max_tag (page_end page) (
                        scan_segments codec max_tag max_cover k page.segments page.body
                          (enter k s))))
                (agrees o) (λ page. page_of_stream page s h) page)
      ]
    where
      differs : is_other s.target other ≡ true → (serial == other) ≡ false
      differs o = let o' = rw h.target at o in ground (arith, o')

      agrees : is_other s.target other ≡ false → serial ≡ other
      agrees o = let o' = rw h.target at o in ground (arith, o')

  read_page-Onward :
      (position : ℕ) (s : Scan)
      → Carries position s
      → Onward (read_page codec stream max_tag max_cover position s)
  unfolding read_page
  read_page-Onward position s h = of (read_full stream position 27) refl
    where
      contents :
          (header segments : Bytes) (r : FullRead)
          → read_full stream (position + 27 + byte header 26) (sum segments) ≡ r
          → read_full stream (position + 27) (byte header 26) ≡ whole segments
          → read_full stream position 27 ≡ whole header
          → (not (bytes_eq (take 4 header) page_marker) || not (byte header 4 == 0)) ≡ false
          → Onward (
              page_body codec stream max_tag max_cover
                (position + 27 + byte header 26)
                (little_endian (drop 14 header))
                segments
                s)
      contents header segments ended b e f g = rw (page_body, b) (λ q. cc)
      contents header segments failed b e f g = rw (page_body, b) (λ q. cc)
      contents header segments (whole body) b e f g =
          page_body-Onward
            (record {
              header = header;
              segments = segments;
              body = body;
              has_header = f;
              marked = ground (arith, g);
              has_version = ground (arith, g);
              has_serial = refl;
              has_segments = e;
              has_body = b;
            })
            s h

      table :
          (header : Bytes) (r : FullRead)
          → read_full stream (position + 27) (byte header 26) ≡ r
          → read_full stream position 27 ≡ whole header
          → (not (bytes_eq (take 4 header) page_marker) || not (byte header 4 == 0)) ≡ false
          → Onward (read_page codec stream max_tag max_cover position s)
      table header ended e f g = rw (read_page, f, g, e) (λ q. cc)
      table header failed e f g = rw (read_page, f, g, e) (λ q. cc)
      table header (whole segments) e f g =
          rw (read_page, f, g, e) (contents header segments _ refl e f g)

      of :
          (r : FullRead)
          → read_full stream position 27 ≡ r
          → Onward (read_page codec stream max_tag max_cover position s)
      of ended e = rw (read_page, e, h.target) (λ q. cc)
      of failed e = rw (read_page, e) (λ q. cc)
      of (whole header) e =
          elim (Bool-cases
            (not (bytes_eq (take 4 header) page_marker) || not (byte header 4 == 0))) [
              | inl g ↦ rw (read_page, e, g) (λ q. cc)
              | inr g ↦ table header (read_full stream (position + 27) (byte header 26)) refl e g
            ]

  pages-Passed :
      (pages position : ℕ) (s : Scan)
      → Carries position s
      → scan_pages pages codec stream max_tag max_cover position s ≡ accepted
      → Passed
  unfolding scan_pages
  pages-Passed zero position s h = λ e. absurd (cc)
  pages-Passed (suc pages) position s h =
      of (read_page codec stream max_tag max_cover position s) refl (read_page-Onward position s h)
        (λ position' s' k. pages-Passed pages position' s' k)
    where
      of :
          (p : Page)
          → read_page codec stream max_tag max_cover position s ≡ p
          → Onward p
          → ((position' : ℕ) (s' : Scan)
              → Carries position' s'
              → scan_pages pages codec stream max_tag max_cover position' s' ≡ accepted
              → Passed)
          → scan_pages (suc pages) codec stream max_tag max_cover position s ≡ accepted
          → Passed
      of (stop v) e o rec = rw (scan_pages, e) o
      of (next position' s') e o rec = rw (scan_pages, e) (rec position' s' o)

-- Once an identification header has chosen a stream, the rest of the file is accepted only if a
-- packet of that stream, laced over its pages from there on, is a comment packet no longer than the
-- tag limit whose block passes its check: running into the end of the file, the bound on the scan
-- or the bound on the pages refuses it.
pub scan_pages-IsChecked :
    (codec : Codec) (max_tag max_cover : ℕ) (stream : Stream) (serial pages position : ℕ) (s : Scan)
    → s.target ≡ some serial
    → scan_pages pages codec stream max_tag max_cover position s ≡ accepted
    → IsChecked codec max_tag max_cover stream serial position (enter serial s).packet
scan_pages-IsChecked codec max_tag max_cover stream serial pages position s h e =
    pages-Passed codec max_tag max_cover stream serial position (enter serial s).packet pages
      position s (record { target = h; opened = started }) e
