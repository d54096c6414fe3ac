-- ===== src/ServeMux/Canonical.antt =====
-- A path that the mux takes as it is: that of a device's telemetry.
use telemetry_punitha.Prelude.{
  ℕ, ◌≡◌, ◌≢◌, refl, ap, ◌∙◌, false, [], ◌∷◌, ◌++◌, Text, codes, text_eq, text_eqb, text_eqb_iff,
  mentions, split, split-append, split_plain, arith,
}
use telemetry_punitha.ServeMux.{ends_in_slash, keep_segments, join_segments, clean_path}

-- A segment that path.Clean keeps.
pub record IsSegment (s : Text) : Type 0 where
  pub given : s ≢ []
  pub not_here : s ≢ codes "."
  pub not_up : s ≢ codes ".."
  pub whole : mentions b'/' s ≡ false

ends_in_slash-append :
    (s : Text) (c : ℕ) (t : Text) → ends_in_slash (s ++ c ∷ t) ≡ ends_in_slash (c ∷ t)
unfolding ends_in_slash
ends_in_slash-append [] c t = refl
ends_in_slash-append (a ∷ []) c t = refl
ends_in_slash-append (a ∷ b ∷ s) c t = ends_in_slash-append (b ∷ s) c t

abbrev pub device_path : Text → Text
device_path id = codes "/api/v1/gpus/" ++ (id ++ codes "/telemetry")

split-device_path :
    (id : Text)
    → mentions b'/' id ≡ false
    → split b'/' (device_path id)
      ≡ [] ∷ codes "api" ∷ codes "v1" ∷ codes "gpus" ∷ id ∷ codes "telemetry" ∷ []
unfolding mentions
split-device_path id whole =
    let tail = id ++ codes "/telemetry" in
    split-append b'/' [] (codes "api/v1/gpus/" ++ tail) refl
    ∙ ap (λ l. [] ∷ l)
        (split-append b'/' (codes "api") (codes "v1/gpus/" ++ tail) refl
          ∙ ap (λ l. codes "api" ∷ l)
              (split-append b'/' (codes "v1") (codes "gpus/" ++ tail) refl
                ∙ ap (λ l. codes "v1" ∷ l)
                    (split-append b'/' (codes "gpus") tail refl
                      ∙ ap (λ l. codes "gpus" ∷ l)
                          (split-append b'/' id (codes "telemetry") whole
                            ∙ ap (λ l. id ∷ l) (split_plain b'/' (codes "telemetry") refl)))))

keep-device_path :
    (id : Text)
    → IsSegment id
    → keep_segments [] ([] ∷ codes "api" ∷ codes "v1" ∷ codes "gpus" ∷ id ∷ codes "telemetry" ∷ [])
      ≡ codes "telemetry" ∷ id ∷ codes "gpus" ∷ codes "v1" ∷ codes "api" ∷ []
unfolding keep_segments text_eqb
keep-device_path id seg =
    ground (arith, text_eqb_iff id [], text_eqb_iff id (codes "."), text_eqb_iff id (codes ".."))

joined :
    (id : Text)
    → join_segments (codes "telemetry" ∷ id ∷ codes "gpus" ∷ codes "v1" ∷ codes "api" ∷ []) []
      ≡ device_path id
unfolding join_segments
joined id = refl

device_path_ends : (id : Text) → ends_in_slash (device_path id) ≡ false
device_path_ends id =
    ends_in_slash-append (codes "/api/v1/gpus/" ++ id) b'/' (codes "telemetry")
    ∙ (unfold ends_in_slash in refl)

pub clean_path-device_path :
    (id : Text) → IsSegment id → clean_path (device_path id) ≡ device_path id
unfolding clean_path
clean_path-device_path id seg =
    let parts = split-device_path id seg.whole in
    let kept = keep-device_path id seg in
    let cleaned : join_segments (keep_segments [] (split b'/' (device_path id))) []
        ≡ device_path id =
      ap (λ l. join_segments (keep_segments [] l) []) parts
      ∙ ap (λ l. join_segments l []) kept
      ∙ joined id in
    ground (arith, cleaned, device_path_ends id, text_eqb_iff (device_path id) [])
