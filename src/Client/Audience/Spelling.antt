-- ===== src/Client/Audience/Spelling.antt =====
-- The strings of mcps-client-core/src/audience.rs tell audiences apart.
use mcps.Prelude.{
  ℕ, zero, suc, subst, ◌<◌, ◌^◌, Str, codes, [], ◌∷◌, ◌++◌, ◌==◌, ==_iff, if◌then◌else◌, ◌≡◌, ◌≢◌,
  refl, ap, sym, ◌∙◌, All, Bool-cases, inl, inr, arith,
}
use mcps.Prelude.Decimal.{decimal, All-decimal, decimal_injective}
use mcps.Prelude.Cuts.{cut_at, digits_not, All-append}
use mcps.Client.Audience.{AudienceTuple, replace, escape_field, to_audience_string}

-- What a character is written as.
escaped : ℕ → Str
escaped x =
    if x == b'%'
    then codes "%25"
    else if x == b';'
    then codes "%3B"
    else if x == b'='
    then codes "%3D"
    else x ∷ []

escape_field-cons : (x : ℕ) (s : Str) → escape_field (x ∷ s) ≡ escaped x ++ escape_field s
unfolding escape_field replace escaped codes
escape_field-cons x s = elim (Bool-cases (x == b'%')) [
  | inl p ↦ rw p refl
  | inr p ↦ ground (arith, p)
]

abbrev NoMark : Str → Type 0
NoMark = All (λ c. c ≢ b';')

escaped-NoMark : (x : ℕ) → NoMark (escaped x)
unfolding escaped codes
escaped-NoMark x = elim (Bool-cases (x == b'%')) [
  | inl p ↦ rw p ((λ e. omega arith), ((λ e. omega arith), ((λ e. omega arith), tt)))
  | inr p ↦ elim (Bool-cases (x == b';')) [
    | inl q ↦ rw (p, q) ((λ e. omega arith), ((λ e. omega arith), ((λ e. omega arith), tt)))
    | inr q ↦ elim (Bool-cases (x == b'=')) [
      | inl r ↦ rw (p, q, r) ((λ e. omega arith), ((λ e. omega arith), ((λ e. omega arith), tt)))
      | inr r ↦
          let no_mark : x ≢ b';' = λ e. (let same = (==_iff x b';').1 e in absurd cc) in
          rw (p, q, r) (no_mark, tt)
    ]
  ]
]

escape_field-NoMark : (s : Str) → NoMark (escape_field s)
unfolding escape_field replace
escape_field-NoMark [] = tt
escape_field-NoMark (x ∷ s) = subst NoMark (sym (escape_field-cons x s)) (
    All-append (λ c. c ≢ b';') (escaped x) (escape_field s) (escaped-NoMark x)
      (escape_field-NoMark s))

-- The first character that a text with escapes stands for, and the rest.
marked : Str → ℕ × Str
marked (a ∷ b ∷ s) = (if b == b'5' then b'%' else if b == b'B' then b';' else b'=', s)
marked _ = (0, [])

unescaped : Str → ℕ × Str
unescaped [] = (0, [])
unescaped (x ∷ s) = if x == b'%' then marked s else (x, s)

unescaped-escaped : (x : ℕ) (r : Str) → unescaped (escaped x ++ r) ≡ (x, r)
unfolding escaped unescaped marked codes
unescaped-escaped x r = elim (Bool-cases (x == b'%')) [
  | inl p ↦ rw p (ap (λ c. (c, r)) (sym ((==_iff x b'%').0 p)))
  | inr p ↦ elim (Bool-cases (x == b';')) [
    | inl q ↦ rw (p, q) (ap (λ c. (c, r)) (sym ((==_iff x b';').0 q)))
    | inr q ↦ elim (Bool-cases (x == b'=')) [
      | inl e ↦ rw (p, q, e) (ap (λ c. (c, r)) (sym ((==_iff x b'=').0 e)))
      | inr e ↦ ground (arith, p, q, e)
    ]
  ]
]

escaped_filled : (x : ℕ) (r : Str) → [] ≢ escaped x ++ r
unfolding escaped codes
escaped_filled x r e = ground arith

cut_character : (x y : ℕ) (r t : Str) → escaped x ++ r ≡ escaped y ++ t → (x ≡ y) × (r ≡ t)
cut_character x y r t e =
    let both = sym (unescaped-escaped x r) ∙ ap unescaped e ∙ unescaped-escaped y t in
    (ap (λ p. p.0) both, ap (λ p. p.1) both)

escape_field_injective : (s t : Str) → escape_field s ≡ escape_field t → s ≡ t
unfolding escape_field replace
escape_field_injective [] [] e = refl
escape_field_injective [] (y ∷ t) e = absurd (escaped_filled y _ (e ∙ escape_field-cons y t))
escape_field_injective (x ∷ s) [] e = absurd (escaped_filled x _ (sym e ∙ escape_field-cons x s))
escape_field_injective (x ∷ s) (y ∷ t) e =
    let (heads, tails) =
      cut_character x y (escape_field s) (escape_field t)
        (sym (escape_field-cons x s) ∙ e ∙ escape_field-cons y t) in
    let rest = escape_field_injective s t tails in cc

cut_field :
    (s s' r t : Str) → escape_field s ++ b';' ∷ r ≡ escape_field s' ++ b';' ∷ t → (s ≡ s') × (r ≡ t)
cut_field s s' r t e =
    let (p, q) = cut_at b';' _ _ r t (escape_field-NoMark s) (escape_field-NoMark s') e in
    (escape_field_injective s s' p, q)

cut_port :
    (m n : ℕ) (r t : Str)
    → m < 2 ^ 16
    → n < 2 ^ 16
    → decimal m ++ b';' ∷ r ≡ decimal n ++ b';' ∷ t
    → (m ≡ n) × (r ≡ t)
cut_port m n r t hm hn e =
    let (p, q) =
      cut_at b';' _ _ r t (digits_not b';' _ (omega arith) (All-decimal m))
        (digits_not b';' _ (omega arith) (All-decimal n)) e in
    (decimal_injective m n (omega arith) (omega arith) p, q)

-- What follows a label of `n` characters.
drop : ℕ → Str → Str
drop zero s = s
drop (suc n) [] = []
drop (suc n) (x ∷ s) = drop n s

-- What stands behind each field.
after_route : AudienceTuple → Str
after_route a = codes "realm=" ++ escape_field a.realm

after_tenant : AudienceTuple → Str
after_tenant a = codes "route=" ++ (escape_field a.route_id ++ b';' ∷ after_route a)

after_port : AudienceTuple → Str
after_port a = codes "tenant=" ++ (escape_field a.tenant_id ++ b';' ∷ after_tenant a)

after_host : AudienceTuple → Str
after_host a = codes "port=" ++ (decimal a.port ++ b';' ∷ after_port a)

after_scheme : AudienceTuple → Str
after_scheme a = codes "host=" ++ (escape_field a.host ++ b';' ∷ after_host a)

-- The audience string tells any two audiences apart, whatever delimiters their fields hold, for
-- ports of 16 bits.
pub to_audience_string_injective :
    (a b : AudienceTuple)
    → a.port < 2 ^ 16
    → b.port < 2 ^ 16
    → to_audience_string a ≡ to_audience_string b
    → a ≡ b
unfolding to_audience_string codes drop after_route after_tenant after_port after_host after_scheme
to_audience_string_injective a b ha hb e =
    let (scheme, e1) =
      cut_field a.scheme b.scheme (after_scheme a) (after_scheme b) (ap (drop 24) e) in
    let (host, e2) = cut_field a.host b.host (after_host a) (after_host b) (ap (drop 5) e1) in
    let (port, e3) = cut_port a.port b.port (after_port a) (after_port b) ha hb (ap (drop 5) e2) in
    let (tenant, e4) =
      cut_field a.tenant_id b.tenant_id (after_tenant a) (after_tenant b) (ap (drop 7) e3) in
    let (route, e5) =
      cut_field a.route_id b.route_id (after_route a) (after_route b) (ap (drop 6) e4) in
    let realm = escape_field_injective a.realm b.realm (ap (drop 6) e5) in
    λ i. record {
      scheme = scheme i;
      host = host i;
      port = port i;
      tenant_id = tenant i;
      route_id = route i;
      realm = realm i;
    }
