-- ===== src/Tests/Sessions.antt =====
-- A lossless encoding of the sessions of session/session.go, and a login with it.
use tokyo3_base.Base.{
  ℕ, zero, suc, ◌≡◌, refl, Option, none, some, List, [], ◌∷◌, ◌++◌, arith, Bytes, length, take,
  drop, take-append_of_length, drop-append_of_length,
}
use tokyo3_base.Session.Config.{Session}
use tokyo3_base.SealedCookie.{Codec, IsLossless}

-- A text behind its length.
unfoldable pub frame : Bytes → Bytes → Bytes
frame field rest = length field ∷ (field ++ rest)

unfoldable pub unframe : Bytes → Bytes × Bytes
unframe [] = ([], [])
unframe (n ∷ rest) = (take n rest, drop n rest)

pub unframe-frame : (field rest : Bytes) → unframe (frame field rest) ≡ (field, rest)
unfolding frame unframe
unframe-frame field rest =
    rw
      (
        take-append_of_length (length field) field rest refl,
        drop-append_of_length (length field) field rest refl,
      )
      refl

unfoldable pub frames : List Bytes → Bytes
unfolding frame
frames [] = []
frames (g ∷ gs) = frame g (frames gs)

unfoldable pub unframes : ℕ → Bytes → List Bytes
unframes zero bs = []
unframes (suc n) bs = let (g, rest) = unframe bs in g ∷ unframes n rest

unframes-frames : (gs : List Bytes) → unframes (length gs) (frames gs) ≡ gs
unfolding frames unframes
unframes-frames [] = refl
unframes-frames (g ∷ gs) = rw (unframe-frame g (frames gs), unframes-frames gs) refl

unfoldable pub print_session : Session → Bytes
unfolding frame frames
print_session s =
    s.expiry
    ∷ s.absolute_expiry
    ∷ length s.groups
    ∷ frame s.subject (
        frame s.email
          (frame s.name (frame s.sid (frame s.csrf_secret (frame s.extra (frames s.groups))))))

unfoldable pub read_fields : Bytes → Option Session
unfolding unframe unframes
read_fields (expiry ∷ absolute_expiry ∷ n ∷ bs) =
    let (subject, b₁) = unframe bs in
    let (email, b₂) = unframe b₁ in
    let (name, b₃) = unframe b₂ in
    let (sid, b₄) = unframe b₃ in
    let (csrf_secret, b₅) = unframe b₄ in
    let (extra, b₆) = unframe b₅ in
    some (record {
      subject = subject;
      email = email;
      name = name;
      groups = unframes n b₆;
      sid = sid;
      expiry = expiry;
      absolute_expiry = absolute_expiry;
      csrf_secret = csrf_secret;
      extra = extra;
    })
read_fields bs = none

read_fields-print_session : (s : Session) → read_fields (print_session s) ≡ some s
unfolding read_fields print_session
read_fields-print_session s =
    let b₆ = frames s.groups in
    let b₅ = frame s.extra b₆ in
    let b₄ = frame s.csrf_secret b₅ in
    let b₃ = frame s.sid b₄ in
    let b₂ = frame s.name b₃ in
    let b₁ = frame s.email b₂ in
    ground (
      arith,
      unframe-frame s.subject b₁,
      unframe-frame s.email b₂,
      unframe-frame s.name b₃,
      unframe-frame s.sid b₄,
      unframe-frame s.csrf_secret b₅,
      unframe-frame s.extra b₆,
      unframes-frames s.groups,
    )

unfoldable pub framed : Codec Session
framed = record { marshal = λ s. some (print_session s); unmarshal = read_fields }

pub framed-IsLossless : IsLossless framed
unfolding framed
framed-IsLossless = record {
  unmarshal-marshal = λ s b h. ground (arith, h, read_fields-print_session s);
}
