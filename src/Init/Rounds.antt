-- ===== src/Init/Rounds.antt =====
-- ffrdp.c, ffrdp_init: the rounds of the loop over the options.
use mathlib.Core.Option.{none-ne-some, some-injective}
use ffrdp.Base.{ℕ, zero, suc, ◌<◌, ◌≡◌, ◌≢◌, refl, sym, arith, ap, inl, inr}
use ffrdp.Base.{List, [], ◌∷◌, Option, none, some, length}
use ffrdp.Base.{◌==◌, if_cases, Option-cases}
use ffrdp.Init.{Options, comma, cut_at, one_option, parse_options}

cut_at_shorter : (c : ℕ) (text t : List ℕ) → (cut_at c text).1 ≡ some t → length t < length text
unfolding cut_at
cut_at_shorter c [] t e = absurd (none-ne-some t e)
cut_at_shorter c (a ∷ xs) t e =
    let P : List ℕ × Option (List ℕ) → Type 0 = λ q. q.1 ≡ some t → length t < suc (length xs) in
    let rest = cut_at c xs in
    if_cases P (a == c) ([], some xs) (a ∷ rest.0, rest.1)
      (λ _ e1.
        (let same : length xs ≡ length t = ap length (some-injective xs t e1) in
          omega (arith, same)))
      (λ _ e1. (let less = cut_at_shorter c xs t e1 in omega (arith, less))) e

-- What is left after a round is shorter than before, so the bound is not met.
options_end :
    (n : ℕ) (o : Options) (key : Option (List ℕ))
    → ((t : List ℕ) → key ≡ some t → length t < n)
    → parse_options n o key ≢ none
unfolding parse_options
options_end n o none h = λ e. none-ne-some (some o) (sym e)
options_end n o (some []) h = λ e. none-ne-some (some o) (sym e)
options_end zero o (some (a ∷ xs)) h = absurd (omega (arith, h (a ∷ xs) refl))
options_end (suc n) o (some (a ∷ xs)) h =
    let (text, next) = cut_at comma (a ∷ xs) in
    elim (Option-cases (one_option o text)) [
      | inl e ↦ rw (parse_options, e) (λ bad. none-ne-some none (sym bad))
      | inr (o1, e) ↦
          rw (parse_options, e)
            (options_end n o1 next
              (λ t at. omega (arith, cut_at_shorter comma (a ∷ xs) t at, h (a ∷ xs) refl)))
    ]

-- The loop over the options ends by its own tests, whatever the text is: a bound on its rounds that
-- is above the length of the text is never met, since each round leaves a shorter text.
pub parse_options_ends :
    (n : ℕ) (o : Options) (text : List ℕ) → length text < n → parse_options n o (some text) ≢ none
parse_options_ends n o text h =
    options_end n o (some text) (λ t e. rw (← some-injective text t e) h)
