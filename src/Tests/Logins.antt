-- ===== src/Tests/Logins.antt =====
-- A lossless encoding of the pending logins of oidc/login.go.
use tokyo3_base.Base.{
  ℕ, zero, suc, ◌≡◌, refl, Option, none, some, List, [], ◌∷◌, arith, Bytes, length,
}
use tokyo3_base.Oidc.Login.{Flow, FlowSet}
use tokyo3_base.SealedCookie.{Codec, IsLossless}
use tokyo3_base.Tests.Sessions.{frame, unframe, unframe-frame}

unfoldable pub print_flows : List Flow → Bytes
unfolding frame
print_flows [] = []
print_flows (f ∷ fs) =
    f.exp
    ∷ frame f.state
        (frame f.nonce (frame f.verifier (frame f.return_to (frame f.extra (print_flows fs)))))

unfoldable pub read_flows : ℕ → Bytes → List Flow
unfolding unframe
read_flows zero bs = []
read_flows (suc n) [] = []
read_flows (suc n) (exp ∷ bs) =
    let (state, b₁) = unframe bs in
    let (nonce, b₂) = unframe b₁ in
    let (verifier, b₃) = unframe b₂ in
    let (return_to, b₄) = unframe b₃ in
    let (extra, b₅) = unframe b₄ in
    record {
      state = state;
      nonce = nonce;
      verifier = verifier;
      return_to = return_to;
      extra = extra;
      exp = exp;
    }
    ∷ read_flows n b₅

read_flows-print_flows : (fs : List Flow) → read_flows (length fs) (print_flows fs) ≡ fs
unfolding read_flows print_flows
read_flows-print_flows [] = refl
read_flows-print_flows (f ∷ fs) =
    let b₅ = print_flows fs in
    let b₄ = frame f.extra b₅ in
    let b₃ = frame f.return_to b₄ in
    let b₂ = frame f.verifier b₃ in
    let b₁ = frame f.nonce b₂ in
    ground (
      arith,
      unframe-frame f.state b₁,
      unframe-frame f.nonce b₂,
      unframe-frame f.verifier b₃,
      unframe-frame f.return_to b₄,
      unframe-frame f.extra b₅,
      read_flows-print_flows fs,
    )

unfoldable pub read_set : Bytes → Option FlowSet
unfolding read_flows
read_set [] = none
read_set (n ∷ bs) = some (record { flows = read_flows n bs })

unfoldable pub counted : Codec FlowSet
unfolding print_flows read_set
counted = record {
  marshal = λ set. some (length set.flows ∷ print_flows set.flows);
  unmarshal = read_set;
}

pub counted-IsLossless : IsLossless counted
unfolding counted read_set
counted-IsLossless = record {
  unmarshal-marshal = λ set b h.
      let e : length set.flows ∷ print_flows set.flows ≡ b = ground (arith, h) in
      rw (← e, read_flows-print_flows set.flows) refl;
}
