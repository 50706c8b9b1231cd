-- ===== src/Client/Verdict.antt =====
-- What the outcome of one block of http/e2e.py says of its response.
use iot_server.Prelude.{
  ℕ, ◌≡◌, refl, sym, ◌∙◌, ap, String, Bool, true, false, Option, none, some, List, [], Bool-cases,
  inl, inr,
}
use iot_server.Http.{Exec, Result, ok, err, continue}
use iot_server.E2e.Crypto.{Bytes, CryptoLibrary}
use iot_server.E2e.Login.{LoginJson}
use iot_server.Client.{World, Network, Messages, ClientDraw}
use iot_server.Client.Requests.{Values, value_of, decode_response}
use iot_server.Client.Runner.{TestBlock, Texts}
use iot_server.Client.Execute.{
  Variables, Evaluation, Outcome, succeeded, status_fits, capture_all, after_captures, all_hold,
  judge,
}
use iot_server.Client.Run.{
  Running, in_world, send, settled, judged, execute_request, execute_unless_skipped, execute_login,
  execute_block,
}

module _ (values : Values) (evaluation : Evaluation values) where
  after_captures-succeeded :
      (resp : Option values.Value) (assertions : List (String × String)) (p : Bool × Variables)
      (variables : Variables)
      → after_captures values evaluation resp assertions p ≡ (succeeded, variables)
      → all_hold values evaluation resp variables assertions ≡ true
  unfolding after_captures
  after_captures-succeeded resp assertions (true, vs) variables e =
      elim (Bool-cases (all_hold values evaluation resp vs assertions)) [
        | inl yes_ ↦ let same : variables ≡ vs = cc in rw same yes_
        | inr no_ ↦ cc (rw no_ at e)
      ]
  after_captures-succeeded resp assertions (false, vs) variables e = cc

  judge-succeeded :
      (block : TestBlock) (status : ℕ) (resp : Option values.Value) (before after : Variables)
      → judge values evaluation block status resp before ≡ (succeeded, after)
      → (status_fits values evaluation block.expect status ≡ true)
        × (all_hold values evaluation resp after block.assertions ≡ true)
  unfolding judge
  judge-succeeded block status resp before after e =
      elim (Bool-cases (status_fits values evaluation block.expect status)) [
        | inl yes_ ↦ (
          yes_,
          after_captures-succeeded resp block.assertions
              (capture_all values evaluation block.captures resp before) after (rw yes_ at e),
        )
        | inr no_ ↦ cc (rw no_ at e)
      ]

module _ (lib : CryptoLibrary) (lj : LoginJson) (messages : Messages lj) (values : Values)
    (evaluation : Evaluation values) (texts : Texts) (default_url : String) {S : Type 0}
    (net : Network S) where
  settled_inv :
      (j : Outcome × Variables) (t s' : Running S)
      → settled lib lj messages values evaluation texts default_url net j t ≡ (ok succeeded, s')
      → (j ≡ (succeeded, s'.variables)) × (s'.world ≡ t.world)
  unfolding settled
  settled_inv (o, vs) t s' e = (cc, cc)

  judged_inv :
      (block : TestBlock) (s s' : Running S)
      (p : Result (Option ((ℕ × Bytes) × Option Bytes)) × Running S)
      → continue (judged lib lj messages values evaluation texts default_url net block) p
        ≡ (ok succeeded, s')
      → (status : ℕ) × (raw : Bytes) × (key : Option Bytes) × (t : Running S) × (p
          ≡ (ok (some ((status, raw), key)), t))
        × (s'.world ≡ t.world)
        × (status_fits values evaluation block.expect status ≡ true)
        × (all_hold values evaluation
              (value_of (decode_response lib values key raw))
              s'.variables
              block.assertions
            ≡ true)
  unfolding judged settled
  judged_inv block s s' (err x, t) e = cc
  judged_inv block s s' (ok none, t) e = cc
  judged_inv block s s' (ok (some ((status, raw), key)), t) e =
      let j =
        judge values evaluation block status (value_of (decode_response lib values key raw))
          t.variables in
      let (won, same) = settled_inv j t s' e in
      let (fits, holds) =
        judge-succeeded values evaluation block status _ t.variables s'.variables won in
      (status, raw, key, t, refl, same, fits, holds)

  in_world_inv :
      {A : Type 0} (run : Exec (World S) A) (s t : Running S) (a : A)
      → in_world run s ≡ (ok a, t)
      → run s.world ≡ (ok a, t.world)
  unfolding in_world
  in_world_inv run s t a e = ap (λ p. (p.0, p.1.world)) e

  -- A request that counts as passed was answered by the expected status, if one is given, and every
  -- assertion of its block holds of the response, with the variables after the captures.
  pub execute_block-succeeded :
      (drawn : ClientDraw) (block : TestBlock) (method : String) (s s' : Running S)
      → block.login ≡ none
      → block.skip ≡ none
      → block.method ≡ some method
      → execute_block lib lj messages values evaluation texts default_url net drawn block s
        ≡ (ok succeeded, s')
      → (status : ℕ) × (raw : Bytes) × (key : Option Bytes) × (send lib lj messages values
            evaluation texts default_url net drawn.iv block method s.variables s.world
          ≡ (ok (some ((status, raw), key)), s'.world))
        × (status_fits values evaluation block.expect status ≡ true)
        × (all_hold values evaluation
              (value_of (decode_response lib values key raw))
              s'.variables
              block.assertions
            ≡ true)
  unfolding execute_block execute_login execute_unless_skipped execute_request
  execute_block-succeeded drawn block method s s' h₁ h₂ h₃ e =
      let run =
        send lib lj messages values evaluation texts default_url net drawn.iv block method
          s.variables in
      let direct : continue (judged lib lj messages values evaluation texts default_url net block)
            (in_world {A = Option ((ℕ × Bytes) × Option Bytes)} run s)
          ≡ (ok succeeded, s') =
        rw (h₁, h₂, h₃) at e in
      let (status, raw, key, t, ran, same, fits, holds) = judged_inv block s s' _ direct in
      (
        status,
        raw,
        key,
        in_world_inv run s t _ ran ∙ ap (λ w. (ok (some ((status, raw), key)), w)) (sym same),
        fits,
        holds,
      )

  -- Without an expected status, captures and assertions, a request counts as passed whatever its status
  -- is.
  pub execute_block-unchecked :
      (drawn : ClientDraw) (block : TestBlock) (method : String) (s : Running S) (status : ℕ)
      (raw : Bytes) (key : Option Bytes) (w : World S)
      → block.login ≡ none
      → block.skip ≡ none
      → block.method ≡ some method
      → block.expect ≡ none
      → block.captures ≡ []
      → block.assertions ≡ []
      → send lib lj messages values evaluation texts default_url net drawn.iv block method
          s.variables s.world
        ≡ (ok (some ((status, raw), key)), w)
      → execute_block lib lj messages values evaluation texts default_url net drawn block s
        ≡ (ok succeeded, record s { world = w })
  unfolding execute_block execute_login execute_unless_skipped execute_request in_world judged
      settled judge capture_all after_captures all_hold status_fits
  execute_block-unchecked drawn block method s status raw key w h₁ h₂ h₃ h₄ h₅ h₆ e =
      rw (h₁, h₂, h₃, e, h₄, h₅, h₆) refl
