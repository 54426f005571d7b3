-- ===== src/Compression/Bodies.antt =====
-- `Close` of a body that is decompressed.
use vanguard_go.Compression.{DecompressedBody, close, close_all}
use vanguard_go.Prelude.{All, List, Option, [], none, refl, some, ◌∷◌, ◌≡◌}

-- A body that is not closed yet.
abbrev pub open_body : {E : Type 0} → DecompressedBody E
open_body = record { decompressor_closes = 0; body_closes = 0; close_err = none }

module _ {E : Type 0} (join_errors : Option E → Option E → Option E) where
  -- The body has been closed once, all calls since have returned `kept`.
  pub record ClosedOnce (kept : Option E) (d : DecompressedBody E) (es : List (Option E))
      : Type 0 where
    pub decompressor_once : d.decompressor_closes ≡ 1
    pub body_once : d.body_closes ≡ 1
    pub all_kept : All (λ e. e ≡ kept) es

  close_all-kept :
      (calls : List (Option E × Option E)) (kept : Option E) (d : DecompressedBody E)
      → d.close_err ≡ some kept
      → d.decompressor_closes ≡ 1
      → d.body_closes ≡ 1
      → ClosedOnce kept (close_all join_errors calls d).0 (close_all join_errors calls d).1
  unfolding close_all close
  close_all-kept [] kept d h a b = record { decompressor_once = a; body_once = b; all_kept = tt }
  close_all-kept ((x, y) ∷ calls) kept d h a b =
      let later = close_all-kept calls kept d h a b in
      rw (h, close_all, close)
        (record {
          decompressor_once = later.decompressor_once;
          body_once = later.body_once;
          all_kept = (refl, later.all_kept);
        })

  -- When a fresh body is closed once or more, both closers are called once, and every call of
  -- `Close` returns the joined errors of the first.
  pub close_all-ClosedOnce :
      (of_decompressor of_body : Option E) (calls : List (Option E × Option E))
      → ClosedOnce
          (join_errors of_decompressor of_body)
          (close_all join_errors ((of_decompressor, of_body) ∷ calls) open_body).0
          (close_all join_errors ((of_decompressor, of_body) ∷ calls) open_body).1
  unfolding close_all close
  close_all-ClosedOnce of_decompressor of_body calls =
      let later =
        close_all-kept calls (join_errors of_decompressor of_body)
          (close join_errors of_decompressor of_body open_body).0 refl refl refl in
      record {
        decompressor_once = later.decompressor_once;
        body_once = later.body_once;
        all_kept = (refl, later.all_kept);
      }
