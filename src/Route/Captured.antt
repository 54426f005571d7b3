-- ===== src/Route/Captured.antt =====
-- From a canonical template to the values of its variables in a request path that it reads:
-- `trimVerb` and `capture` together.
use vanguard_go.Escape.{PathEncoding}
use vanguard_go.Prelude.{
  All, Bool, Bool-cases, Bytes, Option, cons_first, join, leb, none, some, ◌+◌, ◌<◌, ◌==◌, Lacks,
  List, [], ap, arith, codes, ends_with, err, false, has_prefix, inl, inr, is_empty, length,
  length-append, ok, refl, split, sym, true, ℕ, ◌++◌, ◌∙◌, ◌∷◌, ◌≡◌, ◌≢◌, ◌≤◌,
}
use vanguard_go.Prelude.Cuts.{ends_with-append}
use vanguard_go.Route.Capture.{capture, slice_out_of_range, trim_suffix, trim_verb, unescape_value}
use vanguard_go.Route.Capture.Offsets.{slice_part}
use vanguard_go.Route.Capture.Values.{value_mode, IsWithin, capture-index}
use vanguard_go.Route.Templates.{split_verb-template, verb_text}
use vanguard_go.Route.Trie.Covers.{Covers, done, double_star, literal, star}
use vanguard_go.Route.Trie.Matching.{Reads, is_rejected}
use vanguard_go.Route.Trie.Paths.{segments_of}
use vanguard_go.Route.Verb.Laws.{VerbOf, split_verb-VerbOf, with_verb, without}
use vanguard_go.Template.{PathVariable}
use vanguard_go.Template.Canonical.{IsTemplate}
use vanguard_go.Template.Written.{EndsWithin, IsCapture, written}

cons_first-Lacks :
    (c : ℕ) (ps : List Bytes) → c ≢ b'/' → All (Lacks b'/') ps → All (Lacks b'/') (cons_first c ps)
cons_first-Lacks c [] n h = ((n, tt), tt)
cons_first-Lacks c (p ∷ ps) n (h, hs) = ((n, h), hs)

split-Lacks : (s : Bytes) → All (Lacks b'/') (split s b'/')
split-Lacks [] = (tt, tt)
split-Lacks (c ∷ s) = elim (Bool-cases (c == b'/')) [
  | inl e ↦ rw e (tt, split-Lacks s)
  | inr e ↦ rw e (cons_first-Lacks c (split s b'/') (λ d. ground arith) (split-Lacks s))
]

written-cons_first :
    (c : ℕ) (s : Bytes) (ps : List Bytes)
    → written ps ≡ b'/' ∷ s
    → written (cons_first c ps) ≡ b'/' ∷ (c ∷ s)
written-cons_first c s [] h = cc
written-cons_first c s (p ∷ ps) h = let e : p ++ written ps ≡ s = cc in ap (λ r. b'/' ∷ (c ∷ r)) e

written-split : (s : Bytes) → written (split s b'/') ≡ b'/' ∷ s
written-split [] = refl
written-split (c ∷ s) = elim (Bool-cases (c == b'/')) [
  | inl e ↦ let d : c ≡ b'/' = ground arith in rw (e, d) (ap (λ r. b'/' ∷ r) (written-split s))
  | inr e ↦ rw e (written-cons_first c s (split s b'/') (written-split s))
]

Covers-length : {ts us : List Bytes} → Covers ts us → length ts ≤ length us
Covers-length done = omega arith
Covers-length (literal e c) = omega (arith, Covers-length c)
Covers-length (star e c) = omega (arith, Covers-length c)
Covers-length (double_star e) = omega arith

unescape_value_in_range :
    (value : Bytes) (mode : PathEncoding) → unescape_value value mode ≢ err slice_out_of_range
unfolding unescape_value
unescape_value_in_range value mode = ground arith

capture_in_range :
    (v : PathVariable) (us : List Bytes)
    → All (Lacks b'/') us
    → IsWithin (length us) v.start v.end_segment
    → capture v (written us) ≢ err slice_out_of_range
capture_in_range v us h w e =
    let (vs, _, _, value) = capture-index v us h w in
    unescape_value_in_range (join vs (codes "/")) (value_mode v.start v.end_segment) (sym value ∙ e)

EndsWithin-IsWithin :
    (start n m : ℕ) (seen : Bool) (to : Option ℕ)
    → start < n
    → EndsWithin start n seen to
    → n ≤ m
    → IsWithin m start to
EndsWithin-IsWithin start n m seen none before ends l = omega arith
EndsWithin-IsWithin start n m seen (some to) before ends l = omega arith

captures_in_range :
    (vars : List PathVariable) (n : ℕ) (seen : Bool) (us : List Bytes)
    → All (Lacks b'/') us
    → n ≤ length us
    → All (IsCapture 0 n seen) vars
    → All (λ v. capture v (written us) ≢ err slice_out_of_range) vars
captures_in_range [] n seen us h l c = tt
captures_in_range (v ∷ vars) n seen us h l (c, cs) = (
  capture_in_range v us h
      (EndsWithin-IsWithin v.start n (length us) seen v.end_segment c.before c.ends l),
  captures_in_range vars n seen us h l cs,
)

-- The text of a request path is that of its segments, each behind a '/'.
written-segments_of :
    (path : Bytes) → has_prefix path (codes "/") ≡ true → written (segments_of path) ≡ path
written-segments_of [] h = absurd (ground arith)
written-segments_of (c ∷ s) h =
    let e : c ≡ b'/' = ground arith in written-split s ∙ ap (λ d. d ∷ s) (sym e)

segments_of-Lacks : (path : Bytes) → All (Lacks b'/') (segments_of path)
segments_of-Lacks [] = tt
segments_of-Lacks (c ∷ s) = split-Lacks s

trim_suffix-append :
    (path verb : Bytes) → is_empty verb ≡ false → trim_suffix verb (path ++ (b':' ∷ verb)) ≡ ok path
unfolding trim_suffix
trim_suffix-append path verb h =
    let l = length-append path (b':' ∷ verb) in
    let fits : leb (length verb + 1) (length (path ++ (b':' ∷ verb))) ≡ true = ground (arith, l) in
    rw (h, fits) (slice_part [] path (b':' ∷ verb) 0 _ refl (omega arith))

rooted_of :
    (uri_path : Bytes) → is_rejected uri_path ≡ false → has_prefix uri_path (codes "/") ≡ true
rooted_of uri_path accepted = ground arith

colon_last :
    (path verb uri_path : Bytes)
    → is_empty verb ≡ true
    → uri_path ≡ path ++ (b':' ∷ verb)
    → is_rejected uri_path ≢ false
colon_last path [] uri_path h e accepted =
    let ends : ends_with uri_path b':' ≡ true = rw e (ends_with-append path b':') in ground arith
colon_last path (c ∷ verb) uri_path h e accepted = absurd (ground arith)

-- A prefix of a path begins as the path does, unless it is empty.
prefix-starts :
    (path verb : Bytes)
    → has_prefix (path ++ (b':' ∷ verb)) (codes "/") ≡ true
    → has_prefix path (codes "/") ≡ true
prefix-starts [] verb h = absurd (ground arith)
prefix-starts (c ∷ path) verb h = ground arith

-- The text that `trimVerb` leaves, and the segments that the template covers in it.
record Trimmed (ts : List Bytes) (verb uri_path : Bytes) : Type 0 where
  path : Bytes
  trimmed : trim_suffix verb uri_path ≡ ok path
  rooted : has_prefix path (codes "/") ≡ true
  covers : Covers ts (segments_of path)

untrimmed :
    (ts : List Bytes) (uri_path : Bytes)
    → has_prefix uri_path (codes "/") ≡ true
    → Covers ts (segments_of uri_path)
    → Trimmed ts [] uri_path
untrimmed ts uri_path r c = record {
  path = uri_path;
  trimmed = unfold trim_suffix in refl;
  rooted = r;
  covers = c;
}

Trimmed-of_VerbOf :
    (ts : List Bytes) (uri_path : Bytes) {r : Bytes × Bytes}
    → is_rejected uri_path ≡ false
    → VerbOf uri_path r
    → Covers ts (segments_of r.0)
    → Trimmed ts r.1 uri_path
Trimmed-of_VerbOf ts uri_path accepted without c = untrimmed ts uri_path (ground arith) c
Trimmed-of_VerbOf ts uri_path accepted (with_verb {path} {verb} e _ _) c =
    elim (Bool-cases (is_empty verb)) [
      | inl none_left ↦ absurd (colon_last path verb uri_path none_left e accepted)
      | inr some_left ↦ record {
        path = path;
        trimmed = rw e (trim_suffix-append path verb some_left);
        rooted = prefix-starts path verb (rw e at (rooted_of uri_path accepted));
        covers = c;
      }
    ]

Trimmed-of_Reads :
    (ts : List Bytes) (verb uri_path : Bytes)
    → is_rejected uri_path ≡ false
    → Reads ts verb uri_path
    → Trimmed ts verb uri_path
Trimmed-of_Reads ts verb uri_path accepted (inl (c, e)) =
    rw e (Trimmed-of_VerbOf ts uri_path accepted (split_verb-VerbOf uri_path) c)
Trimmed-of_Reads ts verb uri_path accepted (inr (c, e)) =
    rw e (untrimmed ts uri_path (rooted_of uri_path accepted) c)

-- For a canonical template, as the parser returns it, and a request path that is not rejected and
-- that the template and its verb read: `trimVerb` gives the text of segments that the template
-- covers, and `capture` of each variable of the template on it slices within the path.
pub trim_verb-capture :
    {template : Bytes} {vars : List PathVariable} (h : IsTemplate template vars) (uri_path : Bytes)
    → is_rejected uri_path ≡ false
    → Reads h.segments (verb_text h.verb) uri_path
    → (us : List Bytes) × (trim_verb template uri_path ≡ ok (written us))
      × Covers h.segments us
      × All (λ v. capture v (written us) ≢ err slice_out_of_range) vars
unfolding trim_verb
trim_verb-capture {template} {vars} h uri_path accepted reads =
    let t = Trimmed-of_Reads h.segments (verb_text h.verb) uri_path accepted reads in
    let us = segments_of t.path in
    let whole : written us ≡ t.path = written-segments_of t.path t.rooted in
    (
      us,
      rw ((split_verb-template h).0, whole) t.trimmed,
      t.covers,
      captures_in_range vars (length h.segments) h.double_star us (segments_of-Lacks t.path)
          (Covers-length t.covers) h.captures,
    )
