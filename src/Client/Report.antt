-- ===== src/Client/Report.antt =====
-- What a run of the blocks of http/e2e.py reports.
use iot_server.Prelude.{
  ℕ, suc, ◌+◌, ◌≡◌, refl, sym, ◌∙◌, arith, String, false, Option, none, some, List, [], ◌∷◌,
  Bool-cases, inl, inr, ltb,
}
use iot_server.Prelude.Lists.{length}
use iot_server.Http.{Exec, Result, ok, err, continue}
use iot_server.E2e.Crypto.{CryptoLibrary}
use iot_server.E2e.Login.{LoginJson}
use iot_server.Client.{World, Network, Messages, ClientDraw}
use iot_server.Client.Requests.{Values}
use iot_server.Client.Runner.{Texts, parse_block}
use iot_server.Client.Execute.{Evaluation, Outcome, succeeded, failed, skipped}
use iot_server.Client.Run.{
  parse_blocks, Tally, count, Running, run_parsed, run_blocks, run_file, run_files, report, cmd_run,
}

continue_inv :
    {S A B : Type 0} (f : A → Exec S B) (p : Result A × S) (b : B) (s' : S)
    → continue f p ≡ (ok b, s')
    → (a : A) × (s₀ : S) × (p ≡ (ok a, s₀)) × (f a s₀ ≡ (ok b, s'))
continue_inv f (ok a, s) b s' e = (a, s, refl, e)
continue_inv f (err x, s) b s' e = cc

-- The numbers of the outcomes add up.
abbrev IsBalanced : Tally → Type 0
IsBalanced t = t.passed + t.failures + t.skips ≡ t.total

count-IsBalanced : (o : Outcome) (t : Tally) → IsBalanced t → IsBalanced (count o t)
unfolding count
count-IsBalanced succeeded t h = omega arith
count-IsBalanced failed t h = omega arith
count-IsBalanced skipped t h = omega arith

count-total : (o : Outcome) (t : Tally) → (count o t).total ≡ suc t.total
unfolding count
count-total succeeded t = refl
count-total failed t = refl
count-total skipped t = refl

-- The number of the blocks of the files that are found.
unfoldable pub blocks_of : Texts → List (Option (List String)) → ℕ
blocks_of texts [] = 0
blocks_of texts (none ∷ rest) = blocks_of texts rest
blocks_of texts (some parts ∷ rest) = length (parse_blocks texts.strip parts) + blocks_of texts rest

module _ (lib : CryptoLibrary) (lj : LoginJson) (messages : Messages lj) (values : Values)
    (evaluation : Evaluation values) (texts : Texts) (default_url : String) {S : Type 0}
    (net : Network S) where
  run_blocks-counts :
      (draw : ℕ → ClientDraw) (blocks : List (String × String)) (t t' : Tally) (s s' : Running S)
      → IsBalanced t
      → run_blocks lib lj messages values evaluation texts default_url net draw blocks t s
        ≡ (ok t', s')
      → IsBalanced t' × (t'.total ≡ t.total + length blocks)
  unfolding run_blocks
  run_blocks-counts draw [] t t' s s' h e = let same : t' ≡ t = cc in rw same (h, omega arith)
  run_blocks-counts draw ((name, body) ∷ rest) t t' s s' h e =
      let (o, s₀, ran, later) =
        continue_inv
          (λ outcome.
            run_blocks lib lj messages values evaluation texts default_url net draw rest
              (count outcome t))
          (run_parsed lib lj messages values evaluation texts default_url net (draw t.total)
            (parse_block texts name body) s)
          t' s' e in
      let (balanced, total) =
        run_blocks-counts draw rest (count o t) t' s₀ s' (count-IsBalanced o t h) later in
      (balanced, total ∙ rw (count-total o t) (omega arith))

  run_files-counts :
      (draw : ℕ → ClientDraw) (files : List (Option (List String))) (t t' : Tally)
      (s s' : Running S)
      → IsBalanced t
      → run_files lib lj messages values evaluation texts default_url net draw files t s
        ≡ (ok t', s')
      → IsBalanced t' × (t'.total ≡ t.total + blocks_of texts files)
  unfolding run_files run_file blocks_of
  run_files-counts draw [] t t' s s' h e = let same : t' ≡ t = cc in rw same (h, omega arith)
  run_files-counts draw (none ∷ rest) t t' s s' h e = cc
  run_files-counts draw (some parts ∷ rest) t t' s s' h e =
      let (u, s₀, ran, later) =
        continue_inv (run_files lib lj messages values evaluation texts default_url net draw rest)
          (run_file lib lj messages values evaluation texts default_url net draw (some parts) t s)
          t' s' e in
      let (b, n) = run_blocks-counts draw (parse_blocks texts.strip parts) t u s s₀ h ran in
      let (balanced, total) = run_files-counts draw rest u t' s₀ s' b later in
      (balanced, omega arith)

  report_sound :
      (u t : Tally) (s s' : Running S)
      → report lib lj messages values evaluation texts default_url net u s ≡ (ok t, s')
      → (u ≡ t) × (ltb 0 u.failures ≡ false)
  unfolding report
  report_sound u t s s' e = elim (Bool-cases (ltb 0 u.failures)) [
    | inl some_ ↦ cc (rw some_ at e)
    | inr none_ ↦ let kept = rw none_ at e in (cc, none_)
  ]

  -- A run that ends without an exception had no failed block, and what passed and what was skipped are
  -- together all blocks of its files.
  pub cmd_run-counts :
      (draw : ℕ → ClientDraw) (files : List (Option (List String))) (w : World S) (t : Tally)
      (s' : Running S)
      → cmd_run lib lj messages values evaluation texts default_url net draw files w ≡ (ok t, s')
      → (t.failures ≡ 0) × (t.passed + t.skips ≡ t.total) × (t.total ≡ blocks_of texts files)
  unfolding cmd_run
  cmd_run-counts draw files w t s' e =
      let zero_ : Tally = record { passed = 0; failures = 0; skips = 0; total = 0 } in
      let start : Running S = record { variables = []; world = w } in
      let (u, s₀, ran, reported) =
        continue_inv (report lib lj messages values evaluation texts default_url net)
          (run_files lib lj messages values evaluation texts default_url net draw files zero_ start)
          t s' e in
      let (same, clean) = report_sound u t s₀ s' reported in
      let (balanced, total) = run_files-counts draw files zero_ u start s₀ refl ran in
      let none_ : u.failures ≡ 0 = ground (arith, clean) in
      rw (sym same) (none_, omega arith, omega arith)
