-- ===== src/Wire/Topics.antt =====
-- Which machines share a topic of agent/factoryfleet_agent/wire.py.
use Prim.Native.Char.{Char, code}
use text.Mathlib.TextLemmas.{
  append_assoc, nil-append, cons-append, append_cancel_left, append_cancel_right,
}
use mathlib.Core.Path.{ap₂}
use factoryfleet.Base.{String, ◌<>◌, Bool, false, ◌||◌, ◌==◌, ◌≡◌, refl, sym, ap, ◌∙◌, arith}
use factoryfleet.Config.Types.{AssetIdentity, topic_prefix}
use factoryfleet.Wire.{telemetry_topic, registration_topic}

-- The two kinds of message, each with its topic.
pub data Kind : Type 0 where
  telemetry registered : Kind

abbrev pub topic_of : Kind → AssetIdentity → String
topic_of telemetry identity = telemetry_topic identity
topic_of registered identity = registration_topic identity

-- `"/" in text`
unfoldable pub has_slash : String → Bool
has_slash String.[] = false
has_slash (String.◌∷◌ c s) = code c == 47 || has_slash s

abbrev head : Char → String → Char
head d String.[] = d
head d (String.◌∷◌ c s) = c

abbrev tail : String → String
tail String.[] = String.[]
tail (String.◌∷◌ c s) = s

abbrev slash : Char
slash = "/"

slash-append : (b : String) → "/" <> b ≡ String.◌∷◌ slash b
slash-append b = cons-append slash "" b ∙ ap (λ t. String.◌∷◌ slash t) (nil-append b)

-- What the two texts start with, and how they go on.
starts : (x y : Char) (s t : String) → String.◌∷◌ x s ≡ String.◌∷◌ y t → (x ≡ y) × (s ≡ t)
starts x y s t e = (ap (head x) e, ap tail e)

-- The text up to the first slash, and the text from there on, are determined.
first_slash :
    (a c b d : String)
    → has_slash a ≡ false
    → has_slash c ≡ false
    → a <> ("/" <> b) ≡ c <> ("/" <> d)
    → (a ≡ c) × (b ≡ d)
unfolding has_slash
first_slash String.[] String.[] b d h k e =
    (refl, append_cancel_left "/" b d (sym (nil-append _) ∙ e ∙ nil-append _))
first_slash String.[] (String.◌∷◌ x c) b d h k e =
    let (same, rest) =
      starts slash x b (c <> ("/" <> d))
        (sym (nil-append _ ∙ slash-append b) ∙ e ∙ cons-append x c _) in
    absurd (ground (arith, k, ap code same))
first_slash (String.◌∷◌ x a) String.[] b d h k e =
    let (same, rest) =
      starts x slash (a <> ("/" <> b)) d
        (sym (cons-append x a _) ∙ e ∙ nil-append _ ∙ slash-append d) in
    absurd (ground (arith, h, ap code same))
first_slash (String.◌∷◌ x a) (String.◌∷◌ y c) b d h k e =
    let joined = sym (cons-append x a _) ∙ e ∙ cons-append y c _ in
    let (same, rest) = starts x y (a <> ("/" <> b)) (c <> ("/" <> d)) joined in
    let (heads, tails) = first_slash a c b d (ground (arith, h)) (ground (arith, k)) rest in
    (ap₂ (λ z t. String.◌∷◌ z t) same heads, tails)

-- The last character, or the given one of an empty text.
unfoldable last : String → Char → Char
last String.[] d = d
last (String.◌∷◌ c s) d = last s c

last-append : (s t : String) (d : Char) → last (s <> t) d ≡ last t (last s d)
unfolding last
last-append String.[] t d = ap (λ u. last u d) (nil-append t)
last-append (String.◌∷◌ c s) t d = ap (λ u. last u d) (cons-append c s t) ∙ last-append s t c

kinds_differ : (a b : String) → a <> "/telemetry" ≡ b <> "/registration" → ⊥
unfolding last
kinds_differ a b e =
    let ends : code (last "/telemetry" (last a slash))
        ≡ code (last "/registration" (last b slash)) =
      ap code (
        sym (last-append a "/telemetry" slash)
        ∙ ap (λ u. last u slash) e
        ∙ last-append b "/registration" slash) in
    absurd (omega (arith, ends))

abbrev suffix : Kind → String
suffix telemetry = "/telemetry"
suffix registered = "/registration"

topic_of-parts :
    (k : Kind) (i : AssetIdentity)
    → topic_of k i ≡ "factoryfleet/" <> (i.site_id <> ("/" <> (i.asset_id <> suffix k)))
unfolding telemetry_topic registration_topic topic_prefix
topic_of-parts telemetry i = rw (append_assoc, append_assoc, append_assoc) refl
topic_of-parts registered i = rw (append_assoc, append_assoc, append_assoc) refl

suffix_cut : (k l : Kind) (a b : String) → a <> suffix k ≡ b <> suffix l → (k ≡ l) × (a ≡ b)
suffix_cut telemetry telemetry a b e = (refl, append_cancel_right a b "/telemetry" e)
suffix_cut telemetry registered a b e = absurd (kinds_differ a b e)
suffix_cut registered telemetry a b e = absurd (kinds_differ b a (sym e))
suffix_cut registered registered a b e = (refl, append_cancel_right a b "/registration" e)

-- Where neither site's id has a slash, two topics of the agents are the same only for the same kind of
-- message of the same asset of the same site.
pub topic_of-injective :
    (k l : Kind) (i j : AssetIdentity)
    → has_slash i.site_id ≡ false
    → has_slash j.site_id ≡ false
    → topic_of k i ≡ topic_of l j
    → (k ≡ l) × (i.site_id ≡ j.site_id) × (i.asset_id ≡ j.asset_id)
topic_of-injective k l i j h h' e =
    let joined =
      append_cancel_left "factoryfleet/" _ _ (sym (topic_of-parts k i) ∙ e ∙ topic_of-parts l j) in
    let (site, rest) =
      first_slash i.site_id j.site_id (i.asset_id <> suffix k) (j.asset_id <> suffix l) h h'
        joined in
    let (kind, asset) = suffix_cut k l i.asset_id j.asset_id rest in (kind, site, asset)
