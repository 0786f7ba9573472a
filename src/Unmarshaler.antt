-- ===== src/Unmarshaler.antt =====
-- module/internal/unmarshaler.go: a global option of a Caddyfile becomes the configuration of an
-- app, and a later option of the same name goes on from it.
use point_c.Base.{
  ◌≡◌, refl, false, Option, none, some, [], ◌∷◌, ◌++◌, Bytes, GoError, errorf, text, Result, ok,
  err, ◌>>=◌, bytes_eq, bytes_eq_refl, if◌then◌else◌, arith, ap, sym, ◌∙◌,
}
use point_c.Caddyfile.{Tokens}

-- The state and error of one run, and a run over more tokens unless there was an error.
abbrev pub and_then {ℓ} :
    {T : Type ℓ}
    → (T → Tokens → T × Option GoError)
    → T × Option GoError
    → Tokens
    → T × Option GoError
and_then unmarshal (t, none) ds = unmarshal t ds
and_then unmarshal (t, some e) ds = (t, some e)

-- A type that implements caddyfile.Unmarshaler: its zero value and `UnmarshalCaddyfile`, which
-- reads one directive after the other; and its JSON form.
pub record CaddyfileUnmarshaler (T : Type 0) : Type 0 where
  pub zero_value : T
  pub unmarshal_caddyfile : T → Tokens → T × Option GoError
  pub unmarshal_caddyfile-append :
      (t : T) (a b : Tokens)
      → unmarshal_caddyfile t (a ++ b) ≡ and_then unmarshal_caddyfile (unmarshal_caddyfile t a) b
  pub to_json : T → Bytes
  pub from_json : Bytes → Result T

-- httpcaddyfile.App.
pub record App : Type 0 where
  pub name : Bytes
  pub value : Bytes

-- The argument `resume`: nil, an app, or a value of another type.
pub data Resume : Type 0 where
  nothing : Resume
  app : App → Resume
  foreign : Resume

module _ {T : Type 0} (u : CaddyfileUnmarshaler T) (name : Bytes) where
  -- The value to go on from.
  resumed : Resume → Result T
  resumed nothing = ok u.zero_value
  resumed foreign = err (errorf "not a %T" [])
  resumed (app j) =
      if bytes_eq j.name name
      then u.from_json j.value
      else err (errorf "expected app with name %q, got %q" (text name ∷ text j.name ∷ []))

  finished : T × Option GoError → Result App
  finished (t, some e) = err e
  finished (t, none) = ok (record { name = name; value = u.to_json t })

  -- The function that `Unmarshaler(name)` returns.
  unfoldable pub unmarshaler : Tokens → Resume → Result App
  unfolding resumed finished
  unmarshaler d resume = do v ← resumed resume; finished (u.unmarshal_caddyfile v d)

  finished-eq-ok :
      (r : T × Option GoError) (j : App)
      → finished r ≡ ok j
      → (r ≡ (r.0, none)) × (j ≡ record { name = name; value = u.to_json r.0 })
  unfolding finished
  finished-eq-ok (t, some e) j h = cc
  finished-eq-ok (t, none) j h = (refl, ground arith)

  resumed_run :
      (b : Tokens) (t : T)
      → u.from_json (u.to_json t) ≡ ok t
      → unmarshaler b (app (record { name = name; value = u.to_json t }))
        ≡ finished (u.unmarshal_caddyfile t b)
  unfolding unmarshaler resumed
  resumed_run b t back = rw (bytes_eq_refl name, back)

  -- Two options of one name, the second resumed from the first, give the app of one option with the
  -- directives of both, if the JSON form of the first value is read back.
  pub unmarshaler-append :
      (a b : Tokens) (j : App)
      → unmarshaler a nothing ≡ ok j
      → u.from_json (u.to_json (u.unmarshal_caddyfile u.zero_value a).0)
        ≡ ok (u.unmarshal_caddyfile u.zero_value a).0
      → unmarshaler b (app j) ≡ unmarshaler (a ++ b) nothing
  unmarshaler-append a b j first back =
      let r = u.unmarshal_caddyfile u.zero_value a in
      let (good, made) = finished-eq-ok r j (unfold unmarshaler in first) in
      rw made (resumed_run b r.0 back)
      ∙ ap finished (
          ap (λ s. and_then u.unmarshal_caddyfile s b) (sym good)
          ∙ sym (u.unmarshal_caddyfile-append u.zero_value a b))
      ∙ unfold unmarshaler in refl

  -- Where there is an app of another name to go on from, or a value that is no app, the error says
  -- so, whatever the directives are.
  pub unmarshaler_refuses :
      (d : Tokens) (j : App)
      → bytes_eq j.name name ≡ false
      → (unmarshaler d (app j)
          ≡ err (errorf "expected app with name %q, got %q" (text name ∷ text j.name ∷ [])))
        × (unmarshaler d foreign ≡ err (errorf "not a %T" []))
  unfolding unmarshaler
  unmarshaler_refuses d j h = (rw h, refl)
