-- ===== src/Auth/Encryption/Parameters.antt =====
-- AuthParameterEncryptionBase of auth/parameter_encryption.go, which implements the interface.
-- Serialisation, coding, random numbers and the cipher are parameters.
use go_backend_helpers.Prelude.{
  ℕ, ◌+◌, ◌-◌, ◌<◌, String, ◌≡◌, refl, false, Option, none, some, List, [], ◌∷◌, ◌++◌, ◌==◌, arith,
  ltb, if◌then◌else◌, length, take, drop, length-append, sym,
}
use go_backend_helpers.Effects.{Result, ok, err}
use go_backend_helpers.Results.{◌>>=◌, or_error, bind-ok, ok-injective}
use go_backend_helpers.Auth.Context.{World, set_auth_parameter}
use go_backend_helpers.Auth.Encryption.{Parameter, missing, invalid, value, Encryption}

-- What the encryption takes from outside; `none` stands for an error. The cipher is made of the
-- secret and a salt, and takes a nonce from the random numbers.
pub record Cryptography (T : Type 0) : Type 0 where
  pub salt_size : ℕ
  pub serialize : T → Option (List ℕ)
  pub parse : List ℕ → Option T
  pub random : ℕ → Option (List ℕ)
  pub encrypt : List ℕ → ℕ → List ℕ → Option (List ℕ)
  pub decrypt : List ℕ → List ℕ → Option (List ℕ)
  pub encode : List ℕ → String
  pub decode : String → Option (List ℕ)

-- `ciphertext[:n]` and `ciphertext[n:]` for the length less the size of the salt
abbrev pub without_salt : ℕ → List ℕ → List ℕ
without_salt n bytes = take (length bytes - n) bytes

abbrev pub salt_of : ℕ → List ℕ → List ℕ
salt_of n bytes = drop (length bytes - n) bytes

module _ {T : Type 0} (c : Cryptography T) where
  -- The text of a parameter
  unfoldable pub sealed : T → ℕ → Result String
  sealed t k = or_error "failed to serialize object" (c.serialize t) >>= λ plaintext.
      or_error "failed to generate salt" (c.random k) >>= λ salt.
      or_error "failed to encrypt data" (c.encrypt salt k plaintext) >>= λ ciphertext.
      ok (c.encode (ciphertext ++ salt))

  abbrev written : World → String → String → Result String → Option String × World
  written w protocol name (ok encoded) = (none, set_auth_parameter protocol name encoded w)
  written w protocol name (err e) = (some e, w)

  -- `SetAuthParameter`
  unfoldable pub set_encrypted : World → String → String → T → Option String × World
  set_encrypted w protocol name t =
      written (record w { next_id = w.next_id + 1 }) protocol name (sealed t w.next_id)

  abbrev check_size : List ℕ → Result (List ℕ)
  check_size bytes =
      if ltb (length bytes) c.salt_size then err "ciphertext too short for salt" else ok bytes

  -- The value of a parameter's text
  unfoldable pub opened : String → Result T
  opened encoded = or_error "failed to decode data" (c.decode encoded) >>= λ decoded.
      check_size decoded >>= λ bytes.
      or_error "failed to decrypt ciphertext"
        (c.decrypt (salt_of c.salt_size bytes) (without_salt c.salt_size bytes))
      >>= λ plaintext. or_error "failed to parse plaintext" (c.parse plaintext)

  abbrev parameter_of : Result T → Parameter T
  parameter_of (ok t) = value t
  parameter_of (err e) = invalid e

  -- `GetAuthParameter`
  unfoldable pub get_encrypted : World → String → String → Parameter T
  get_encrypted w protocol name =
      let encoded = w.request.param protocol name in
      if encoded == "" then missing else parameter_of (opened encoded)

  abbrev pub parameter_encryption : Encryption T
  parameter_encryption = record { get = get_encrypted; set = set_encrypted }

take-append : (xs ys : List ℕ) → take (length xs) (xs ++ ys) ≡ xs
take-append [] ys = refl
take-append (x ∷ xs) ys = rw (take-append xs ys)

drop-append : (xs ys : List ℕ) → drop (length xs) (xs ++ ys) ≡ ys
drop-append [] ys = refl
drop-append (x ∷ xs) ys = drop-append xs ys

module _ (xs ys : List ℕ) (n : ℕ) (size : length ys ≡ n) where
  rest_size : length (xs ++ ys) - n ≡ length xs
  rest_size = omega (arith, length-append {0} xs ys, size)

  without_salt-append : without_salt n (xs ++ ys) ≡ xs
  without_salt-append = rw rest_size (take-append xs ys)

  salt_of-append : salt_of n (xs ++ ys) ≡ ys
  salt_of-append = rw rest_size (drop-append xs ys)

-- What is asked of the parameters: what one operation writes the other reads, salts have the
-- configured size, which is not 0, and the text of some bytes is not empty.
pub record AreInverse {T : Type 0} (c : Cryptography T) : Type 0 where
  pub parses : (t : T) (b : List ℕ) → c.serialize t ≡ some b → c.parse b ≡ some t
  pub sized : (k : ℕ) (s : List ℕ) → c.random k ≡ some s → length s ≡ c.salt_size
  pub salted : 0 < c.salt_size
  pub decrypts :
      (s : List ℕ) (k : ℕ) (b e : List ℕ) → c.encrypt s k b ≡ some e → c.decrypt s e ≡ some b
  pub decodes : (b : List ℕ) → c.decode (c.encode b) ≡ some b
  pub seen : (b : List ℕ) → 0 < length b → (c.encode b == "") ≡ false

or_error-ok : {A : Type 0} (e : String) (o : Option A) (a : A) → or_error e o ≡ ok a → o ≡ some a
or_error-ok e none a h = cc h
or_error-ok e (some b) a h = cc h

module _ {T : Type 0} (c : Cryptography T) (i : AreInverse c) where
  -- The parts of a parameter's text.
  sealed_parts :
      (t : T) (k : ℕ) (text : String)
      → sealed c t k ≡ ok text
      → (b : List ℕ) × (s : List ℕ) × (e : List ℕ) × (c.serialize t ≡ some b)
        × (c.random k ≡ some s)
        × (c.encrypt s k b ≡ some e)
        × (c.encode (e ++ s) ≡ text)
  unfolding sealed
  sealed_parts t k text h =
      let (b, p, h1) = bind-ok (or_error "failed to serialize object" (c.serialize t)) _ text h in
      let (s, q, h2) = bind-ok (or_error "failed to generate salt" (c.random k)) _ text h1 in
      let (e, r, h3) = bind-ok (or_error "failed to encrypt data" (c.encrypt s k b)) _ text h2 in
      (
        b,
        s,
        e,
        or_error-ok "failed to serialize object" (c.serialize t) b p,
        or_error-ok "failed to generate salt" (c.random k) s q,
        or_error-ok "failed to encrypt data" (c.encrypt s k b) e r,
        ok-injective h3,
      )

  opened-sealed :
      (t : T) (k : ℕ) (text : String)
      → sealed c t k ≡ ok text
      → (opened c text ≡ ok t) × ((text == "") ≡ false)
  unfolding opened
  opened-sealed t k text h =
      let (b, s, e, p, q, r, f) = sealed_parts t k text h in
      let size = i.sized k s q in
      let long : ltb (length (e ++ s)) c.salt_size ≡ false = ground (arith, length-append e s) in
      let full : 0 < length (e ++ s) = omega (arith, length-append {0} e s, size, i.salted) in
      (
        rw
            (
              sym f,
              i.decodes (e ++ s),
              long,
              salt_of-append e s c.salt_size size,
              without_salt-append e s c.salt_size size,
              i.decrypts s k b e r,
              i.parses t b p,
            )
            refl,
        rw (sym f) (i.seen (e ++ s) full),
      )

  -- When SetAuthParameter has made a text of a value, the parameter is set to it without an error, and
  -- GetAuthParameter reads the value from every request that brings the text.
  pub get_encrypted-set_encrypted :
      (w v : World) (protocol name : String) (t : T) (text : String)
      → sealed c t w.next_id ≡ ok text
      → v.request.param protocol name ≡ text
      → (set_encrypted c w protocol name t
          ≡ (none, set_auth_parameter protocol name text (record w { next_id = w.next_id + 1 })))
        × (get_encrypted c v protocol name ≡ value t)
  unfolding set_encrypted get_encrypted
  get_encrypted-set_encrypted w v protocol name t text h p =
      let (o, n) = opened-sealed t w.next_id text h in (rw h refl, rw (p, n, o) refl)
