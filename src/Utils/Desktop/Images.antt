-- ===== src/Utils/Desktop/Images.antt =====
-- The image that is sent: where it comes from.
use clip_share_server.Prelude.{
  ℕ, zero, suc, ◌≡◌, refl, ap, ◌∙◌, true, false, not, ◌||◌, Option, none, some, List, [], ◌∷◌,
  codes, length, arith, leb, ltb, ◌==◌, if◌then◌else◌, Bool-cases, inl, inr,
}
use clip_share_server.Config.{Config, Flag, unset, off, on}
use clip_share_server.World.{is_set}
use clip_share_server.Utils.Desktop.{
  Desktop, get_image, chosen_display, big_enough, unless_mode, or_else, img_copied_only,
  img_scrn_only,
}

-- Where a mode looks for an image: in the clipboard first and then on the screen, for mode 1 only in
-- the clipboard, for mode 2 only on the screen.
abbrev pub sources : ℕ → Option (List ℕ) → Option (List ℕ) → List (Option (List ℕ))
sources zero clip screen = clip ∷ screen ∷ []
sources (suc zero) clip screen = clip ∷ []
sources (suc (suc zero)) clip screen = screen ∷ []
sources (suc (suc (suc mode))) clip screen = clip ∷ screen ∷ []

-- The first image that has at least 9 bytes.
abbrev pub first_image : List (Option (List ℕ)) → Option (List ℕ)
first_image [] = none
first_image (none ∷ images) = first_image images
first_image (some buf ∷ images) =
    let next = first_image images in if leb 9 (length buf) then some buf else next

-- The display that a client gets: 0 is none in particular, and the configuration may fix it.
abbrev pub display_for : Flag → ℕ → ℕ → ℕ
display_for off configured disp = configured
display_for on configured zero = configured
display_for on configured (suc disp) = suc disp
display_for unset configured zero = configured
display_for unset configured (suc disp) = suc disp

-- The image for a mode and a display, by that.
abbrev pub image_for : Config → Desktop → ℕ → ℕ → Option (List ℕ)
image_for configuration desktop mode disp = first_image (
    sources mode (desktop.xclip_out (some (codes "image/png"))) (
      desktop.screenshot
        (display_for configuration.client_selects_display configuration.display disp)))

chosen_display-display_for :
    (flag : Flag) (configured disp : ℕ)
    → (if leb disp 0 || not (is_set flag) then configured else disp)
      ≡ display_for flag configured disp
chosen_display-display_for off configured zero = refl
chosen_display-display_for off configured (suc disp) =
    let chosen : leb (suc disp) 0 ≡ false = ground arith in rw chosen refl
chosen_display-display_for on configured zero = refl
chosen_display-display_for on configured (suc disp) =
    let chosen : leb (suc disp) 0 ≡ false = ground arith in rw chosen refl
chosen_display-display_for unset configured zero = refl
chosen_display-display_for unset configured (suc disp) =
    let chosen : leb (suc disp) 0 ≡ false = ground arith in rw chosen refl

one_image : (o : Option (List ℕ)) → big_enough o ≡ first_image (o ∷ [])
one_image none = refl
one_image (some buf) =
    let same_test : ltb 8 (length buf) ≡ leb 9 (length buf) = ground arith in rw same_test refl

two_images :
    (o p : Option (List ℕ)) → or_else (big_enough o) (big_enough p) ≡ first_image (o ∷ p ∷ [])
two_images none p = one_image p
two_images (some buf) p = elim (Bool-cases (leb 9 (length buf))) [
  | inl e ↦ let large : ltb 8 (length buf) ≡ true = ground arith in rw (e, large) refl
  | inr e ↦ let small : ltb 8 (length buf) ≡ false = ground arith in rw (e, small) (one_image p)
]

clip_only : (o : Option (List ℕ)) → or_else o none ≡ o
clip_only none = refl
clip_only (some buf) = refl

by_mode :
    (mode : ℕ) (o p : Option (List ℕ))
    → or_else
        (unless_mode (mode == img_scrn_only) (big_enough o))
        (unless_mode (mode == img_copied_only) (big_enough p))
      ≡ first_image (sources mode o p)
by_mode zero o p = two_images o p
by_mode (suc zero) o p = clip_only (big_enough o) ∙ one_image o
by_mode (suc (suc zero)) o p = one_image p
by_mode (suc (suc (suc mode))) o p =
    let screen : (suc (suc (suc mode)) == 2) ≡ false = ground arith in
    let clip : (suc (suc (suc mode)) == 1) ≡ false = ground arith in
    rw (screen, clip) (two_images o p)

pub get_image-image_for :
    (configuration : Config) (desktop : Desktop) (mode disp : ℕ)
    → get_image configuration desktop mode disp ≡ image_for configuration desktop mode disp
unfolding get_image chosen_display
get_image-image_for configuration desktop mode disp =
    by_mode mode (desktop.xclip_out (some (codes "image/png")))
      (desktop.screenshot (chosen_display configuration disp))
    ∙ ap
        (λ d.
          first_image
            (sources mode (desktop.xclip_out (some (codes "image/png"))) (desktop.screenshot d)))
        (chosen_display-display_for configuration.client_selects_display configuration.display disp)
