-- ===== src/Log/Pattern/RoundTrip.antt =====
-- LogFormatter::init in atpdxy/log.cpp on written templates: the pieces of a template, and how they
-- are written in a pattern.
use atpdxy.Common.{
  ℕ, ◌≡◌, refl, ap, ◌∙◌, ◌≢◌, ◌⊎◌, inl, inr, Bool, true, false, not, ◌&&◌, List, [], ◌∷◌, ◌++◌, map,
  append_assoc, append-nil, arith, ◌==◌, All,
}
use atpdxy.Common.Bytes.{Bytes, isalpha}
use atpdxy.Log.Pattern.{
  Token, State, closed, scan_fmt, scan_name, literal, item, flush, step, parse, start, tokens,
  starts_percent,
}
use atpdxy.Log.Pattern.Progress.{parse-cons}

-- Plain text, a format item `%name`, or one with a format, `%name{format}`.
pub data Piece : Type 0 where
  plain : Bytes → Piece
  bare : Bytes → Piece
  with_fmt : Bytes → Bytes → Piece

abbrev pub print : List Piece → Bytes
print [] = []
print (plain t ∷ ps) = t ++ print ps
print (bare n ∷ ps) = b'%' ∷ (n ++ print ps)
print (with_fmt n f ∷ ps) = b'%' ∷ (n ++ (b'{' ∷ (f ++ (b'}' ∷ print ps))))

abbrev pub token_of : Piece → Token
token_of (plain t) = literal t
token_of (bare n) = item n []
token_of (with_fmt n f) = item n f

-- A byte that ends a bare name.
abbrev pub ends_name : ℕ → Bool
ends_name c = not (isalpha c) && (not (c == b'{') && not (c == b'}'))

-- What may stand behind a bare name.
abbrev pub Ends : Bytes → Type 0
Ends [] = Unit
Ends (c ∷ r) = ends_name c ≡ true

abbrev pub NotPlain : List Piece → Type 0
NotPlain (plain t ∷ ps) = ⊥
NotPlain _ = Unit

-- Plain text is not empty, has no percent sign, and no two pieces of it are neighbours; a name is
-- made of letters, a bare one is not empty and followed by a byte that ends it; a format has no
-- closing brace.
abbrev pub IsTemplate : List Piece → Type 0
IsTemplate [] = Unit
IsTemplate (plain t ∷ ps) =
    (t ≢ []) × All (λ c. (c == b'%') ≡ false) t × NotPlain ps × IsTemplate ps
IsTemplate (bare n ∷ ps) =
    (n ≢ []) × All (λ c. isalpha c ≡ true) n × Ends (print ps) × IsTemplate ps
IsTemplate (with_fmt n f ∷ ps) =
    All (λ c. isalpha c ≡ true) n × All (λ c. (c == b'}') ≡ false) f × IsTemplate ps

isalpha_facts :
    (c : ℕ)
    → isalpha c ≡ true
    → ((c == b'%') ≡ false) × ((c == b'{') ≡ false) × ((c == b'}') ≡ false)
unfolding isalpha
isalpha_facts c h = ground arith

scan_fmt_lem :
    (str seen f rest : Bytes)
    → All (λ c. (c == b'}') ≡ false) f
    → scan_fmt str seen (f ++ (b'}' ∷ rest)) ≡ closed str (seen ++ f) rest
unfolding scan_fmt
scan_fmt_lem str seen [] rest h = rw append-nil
scan_fmt_lem str seen (c ∷ f) rest h =
    rw (h.0) (scan_fmt_lem str (seen ++ c ∷ []) f rest h.1 ∙ rw append_assoc)

scan_name_letter :
    (seen : Bytes) (c : ℕ) (r : Bytes)
    → isalpha c ≡ true
    → scan_name seen (c ∷ r) ≡ scan_name (seen ++ c ∷ []) r
unfolding scan_name
scan_name_letter seen c r h = let (p, o, q) = isalpha_facts c h in rw (h, o)

-- The scan passes over the letters of a name.
scan_name-append :
    (seen n rest : Bytes)
    → All (λ c. isalpha c ≡ true) n
    → scan_name seen (n ++ rest) ≡ scan_name (seen ++ n) rest
scan_name-append seen [] rest h = rw append-nil
scan_name-append seen (c ∷ n) rest h =
    scan_name_letter seen c (n ++ rest) h.0
    ∙ scan_name-append (seen ++ c ∷ []) n rest h.1
    ∙ rw append_assoc

scan_name_end : (seen rest : Bytes) → Ends rest → scan_name seen rest ≡ closed seen [] rest
unfolding scan_name
scan_name_end seen [] h = refl
scan_name_end seen (c ∷ rest) h = rw h

scan_name_brace :
    (seen f rest : Bytes)
    → All (λ c. (c == b'}') ≡ false) f
    → scan_name seen (b'{' ∷ (f ++ (b'}' ∷ rest))) ≡ closed seen f rest
scan_name_brace seen f rest h = unfold scan_name isalpha in scan_fmt_lem seen [] f rest h

starts_percent-append :
    (n rest : Bytes)
    → All (λ c. isalpha c ≡ true) n
    → (n ≢ []) ⊎ (starts_percent rest ≡ false)
    → starts_percent (n ++ rest) ≡ false
starts_percent-append [] rest h (inl e) = absurd (e refl)
starts_percent-append [] rest h (inr e) = e
starts_percent-append (c ∷ n) rest h e = (isalpha_facts c h.0).0

-- A plain byte is added to the pending text.
parse_byte :
    (s : State) (c : ℕ) (r : Bytes)
    → (c == b'%') ≡ false
    → parse s (c ∷ r) ≡ parse (record s { nstr = s.nstr ++ c ∷ [] }) r
parse_byte s c r h = parse-cons s c r ∙ unfold step in rw h

parse_plain :
    (s : State) (t rest : Bytes)
    → All (λ c. (c == b'%') ≡ false) t
    → parse s (t ++ rest) ≡ parse (record s { nstr = s.nstr ++ t }) rest
parse_plain s [] rest h = rw append-nil
parse_plain s (c ∷ t) rest h =
    parse_byte s c (t ++ rest) h.0
    ∙ parse_plain (record s { nstr = s.nstr ++ c ∷ [] }) t rest h.1
    ∙ rw append_assoc

flush_nstr : (s : State) → (flush s).nstr ≡ []
unfolding flush
flush_nstr s = ground arith

abbrev with_token : State → Token → State
with_token s t = record (flush s) { vec = (flush s).vec ++ t ∷ [] }

-- A format item closes the pending text.
parse-item :
    (s : State) (r str fmt rest : Bytes)
    → starts_percent r ≡ false
    → scan_name [] r ≡ closed str fmt rest
    → parse s (b'%' ∷ r) ≡ parse (with_token s (item str fmt)) rest
parse-item s r str fmt rest h e = parse-cons s b'%' r ∙ unfold step in rw (h, e)

abbrev after : State → List Token → State
after s ts = record { vec = (flush s).vec ++ ts; nstr = []; error = s.error }

flush-after : (s : State) → flush s ≡ after s []
unfolding flush
flush-after s = ground (arith, append-nil s.vec, append-nil (s.vec ++ literal s.nstr ∷ []))

after-with_token :
    (s : State) (t : Token) (ts : List Token) → after (with_token s t) ts ≡ after s (t ∷ ts)
unfolding flush
after-with_token s t ts =
    ground (
      arith,
      append_assoc s.vec (t ∷ []) ts,
      append_assoc (s.vec ++ literal s.nstr ∷ []) (t ∷ []) ts,
    )

after-text :
    (s : State) (t : Bytes) (ts : List Token)
    → t ≢ []
    → s.nstr ≡ []
    → after (record s { nstr = s.nstr ++ t }) ts ≡ after s (literal t ∷ ts)
unfolding flush
after-text s [] ts h e = absurd (h refl)
after-text s (c ∷ t) ts h e = ground (arith, append_assoc s.vec (literal (c ∷ t) ∷ []) ts)

-- From any state, a template adds its tokens behind those at hand and the pending text.
parse-print :
    (ps : List Piece) (s : State)
    → IsTemplate ps
    → NotPlain ps ⊎ (s.nstr ≡ [])
    → flush (parse s (print ps)) ≡ after s (map token_of ps)
parse-print [] s h p = unfold parse in flush-after s
parse-print (plain t ∷ ps) s h (inl p) = absurd p
parse-print (plain t ∷ ps) s h (inr p) =
    ap flush (parse_plain s t (print ps) h.1)
    ∙ parse-print ps (record s { nstr = s.nstr ++ t }) h.3 (inl h.2)
    ∙ after-text s t (map token_of ps) h.0 p
parse-print (bare n ∷ ps) s h p =
    ap flush (
      parse-item s (n ++ print ps) n [] (print ps)
        (starts_percent-append n (print ps) h.1 (inl h.0))
        (scan_name-append [] n (print ps) h.1 ∙ scan_name_end n (print ps) h.2))
    ∙ parse-print ps (with_token s (item n [])) h.3 (inr (flush_nstr s))
    ∙ after-with_token s (item n []) (map token_of ps)
parse-print (with_fmt n f ∷ ps) s h p =
    let rest = f ++ (b'}' ∷ print ps) in
    ap flush (
      parse-item s (n ++ (b'{' ∷ rest)) n f (print ps)
        (starts_percent-append n (b'{' ∷ rest) h.0 (inr refl))
        (scan_name-append [] n (b'{' ∷ rest) h.0 ∙ scan_name_brace n f (print ps) h.1))
    ∙ parse-print ps (with_token s (item n f)) h.2 (inr (flush_nstr s))
    ∙ after-with_token s (item n f) (map token_of ps)

-- A written template is cut into its pieces again, in order, with no error.
pub tokens-print :
    (ps : List Piece)
    → IsTemplate ps
    → tokens (print ps) ≡ record { vec = map token_of ps; nstr = []; error = false }
tokens-print ps h = unfold tokens in parse-print ps start h (inr refl)
