-- ===== src/Provisioner/Cloudflare/Names.antt =====
-- The names that labels spell, and the candidates of zoneFor of internal/provisioner/dns/cloudflare.go.
use ghost_node.Prelude.{
  ℕ, String, ◌≡◌, refl, ap, ◌∙◌, ◌≢◌, ◌⊎◌, inl, inr, false, Option, none, some, List, [], ◌∷◌, ◌++◌,
  arith, eqb, All,
}
use ghost_node.Texts.{Text}
use ghost_node.Provisioner.Cloudflare.{candidates, trim_dot, drop_last, parents}

-- A label of a name: not empty, without a dot.
abbrev pub IsLabel : Text → Type 0
IsLabel [] = ⊥
IsLabel (c ∷ s) = All (λ d. eqb d b'.' ≡ false) (c ∷ s)

-- The name that the labels spell.
unfoldable pub dotted : List Text → Text
dotted [] = []
dotted (label ∷ []) = label
dotted (label ∷ next ∷ rest) = label ++ b'.' ∷ dotted (next ∷ rest)

-- The zone of a name: the name itself, or else its nearest parent that the directory knows, the
-- top-level domain left out.
unfoldable pub zone_of : (Text → Option String) → List Text → Option String
zone_of directory [] = none
zone_of directory (label ∷ []) = none
zone_of directory (label ∷ next ∷ rest) = elim (directory (dotted (label ∷ next ∷ rest))) [
  | some id ↦ some id
  | none ↦ zone_of directory (next ∷ rest)
]

-- The parents of a name, but for the last label.
unfoldable pub parents_of : List Text → List Text
parents_of [] = []
parents_of (label ∷ []) = []
parents_of (label ∷ next ∷ rest) = dotted (label ∷ next ∷ rest) ∷ parents_of (next ∷ rest)

parents-label : (s : Text) → All (λ d. eqb d b'.' ≡ false) s → parents s ≡ []
unfolding parents
parents-label [] h = refl
parents-label (c ∷ s) (no_dot, h) = rw no_dot (parents-label s h)

parents-dot :
    (s rest : Text)
    → All (λ d. eqb d b'.' ≡ false) s
    → parents (s ++ b'.' ∷ rest) ≡ rest ∷ parents rest
unfolding parents
parents-dot [] rest h = refl
parents-dot (c ∷ s) rest (no_dot, h) = rw no_dot (parents-dot s rest h)

All-label : (label : Text) → IsLabel label → All (λ d. eqb d b'.' ≡ false) label
All-label [] h = elim h [ ]
All-label (c ∷ s) h = h

-- The candidates of a name without its last dot.
names-dotted :
    (labels : List Text)
    → labels ≢ []
    → All IsLabel labels
    → drop_last (dotted labels ∷ parents (dotted labels)) ≡ parents_of labels
unfolding drop_last dotted parents_of
names-dotted [] some_ h = absurd (some_ refl)
names-dotted (label ∷ []) some_ (l, h) = rw (parents-label label (All-label label l)) refl
names-dotted (label ∷ next ∷ rest) some_ (l, h) =
    rw (parents-dot label (dotted (next ∷ rest)) (All-label label l))
      (ap (λ t. dotted (label ∷ next ∷ rest) ∷ t) (names-dotted (next ∷ rest) (ground arith) h))

trim_dot-dot : (s : Text) → trim_dot (s ++ b'.' ∷ []) ≡ s
unfolding trim_dot
trim_dot-dot [] = refl
trim_dot-dot (c ∷ []) = refl
trim_dot-dot (c ∷ d ∷ s) = ap (λ t. c ∷ t) (trim_dot-dot (d ∷ s))

trim_dot-label : (s : Text) → All (λ d. eqb d b'.' ≡ false) s → trim_dot s ≡ s
unfolding trim_dot
trim_dot-label [] h = refl
trim_dot-label (c ∷ []) (no_dot, h) = rw no_dot refl
trim_dot-label (c ∷ d ∷ s) (no_dot, h) = ap (λ t. c ∷ t) (trim_dot-label (d ∷ s) h)

trim_dot-concat : (s : Text) (c : ℕ) (t : Text) → trim_dot (s ++ c ∷ t) ≡ s ++ trim_dot (c ∷ t)
unfolding trim_dot
trim_dot-concat [] c t = refl
trim_dot-concat (x ∷ []) c t = refl
trim_dot-concat (x ∷ y ∷ s) c t = ap (λ u. x ∷ u) (trim_dot-concat (y ∷ s) c t)

dot_first : (t : Text) → t ≢ [] → trim_dot (b'.' ∷ t) ≡ b'.' ∷ trim_dot t
unfolding trim_dot
dot_first [] h = absurd (h refl)
dot_first (c ∷ t) h = refl

dotted-some : (label : Text) (rest : List Text) → IsLabel label → dotted (label ∷ rest) ≢ []
unfolding dotted
dotted-some [] rest h = elim h [ ]
dotted-some (c ∷ s) [] h = ground arith
dotted-some (c ∷ s) (next ∷ rest) h = ground arith

trim_dot-dotted :
    (labels : List Text) → All IsLabel labels → trim_dot (dotted labels) ≡ dotted labels
unfolding dotted trim_dot
trim_dot-dotted [] h = refl
trim_dot-dotted (label ∷ []) (l, h) = trim_dot-label label (All-label label l)
trim_dot-dotted (label ∷ next ∷ rest) (l, h) =
    trim_dot-concat label b'.' (dotted (next ∷ rest))
    ∙ ap (λ t. label ++ t) (dot_first (dotted (next ∷ rest)) (dotted-some next rest (h.0)))
    ∙ ap (λ t. label ++ b'.' ∷ t) (trim_dot-dotted (next ∷ rest) h)

-- A spelling of the labels: with or without a dot at the end.
abbrev pub Spells : Text → List Text → Type 0
Spells fqdn labels = (fqdn ≡ dotted labels) ⊎ (fqdn ≡ dotted labels ++ b'.' ∷ [])

pub candidates-dotted :
    (fqdn : Text) (labels : List Text)
    → labels ≢ []
    → All IsLabel labels
    → Spells fqdn labels
    → candidates fqdn ≡ parents_of labels
unfolding candidates
candidates-dotted fqdn labels some_ h (inl e) =
    rw (e, trim_dot-dotted labels h) (names-dotted labels some_ h)
candidates-dotted fqdn labels some_ h (inr e) =
    rw (e, trim_dot-dot (dotted labels)) (names-dotted labels some_ h)
