-- ===== src/Executor/Build/Shape.antt =====
-- The order of the instructions that `buildExecutionTx` puts into a transaction.
use mathlib.Core.List.{append_assoc, map-append}
use winny.Base.{
  Reply, answered, raised, ℕ, ◌≡◌, refl, subst, ◌⊎◌, inl, inr, ap, sym, ◌∙◌, sym, ◌∙◌, true, false,
  Bool-cases, Option, none, some, List, [], ◌∷◌, ◌++◌, map, ltb, if◌then◌else◌, All, All-append,
  arith,
}
use winny.Bytes.{Buffer}
use winny.Executor.{Attempt}
use winny.Executor.Build.{
  ◌>>=◌, JupiterInstruction, SwapInstructions, Quote, BeginArgs, Instruction, transfer, create_ata,
  set_compute_unit_limit, set_compute_unit_price, begin_degen_execution, finalize_degen_success,
  from_jupiter, Built, Claim, Builder, executor_usdc_ata, drain_ixs, prefix_ixs, is_cu_limit,
  cu_limit_ixs, optional, body_ixs, finalize_ix, direct_ixs, swap_ixs, middle,
  resolve_lookup_tables, build_execution_tx, build_for_mint, assemble, supported_owner, begin_args,
  Middle, swap_result, swap_middle,
}

>>=-eq-answered :
    {A B : Type 0} (m : Reply A) (f : A → Reply B) (b : B)
    → (m >>= f) ≡ answered b
    → (a : A) × (m ≡ answered a) × (f a ≡ answered b)
>>=-eq-answered (answered a) f b h = (a, refl, h)
>>=-eq-answered (raised message) f b h = cc

module _ {Key Table : Type 0} (b : Builder Key Table) where
  -- What may stand before the prize leaves the round: of Jupiter's instructions only compute limits,
  -- and transfers only from the executor's account to the treasury.
  abbrev pub IsPreparation : Instruction Key → Type 0
  IsPreparation (transfer from to amount) =
      (from ≡ executor_usdc_ata b) × (to ≡ b.treasury_usdc_ata)
  IsPreparation (create_ata ata owner mint token_program) = Unit
  IsPreparation (set_compute_unit_limit units) = Unit
  IsPreparation (set_compute_unit_price price) = Unit
  IsPreparation (begin_degen_execution args) = ⊥
  IsPreparation (finalize_degen_success winner round_id receiver_ata) = ⊥
  IsPreparation (from_jupiter ix) = is_cu_limit b ix ≡ true

  abbrev IsCleanup : Option (JupiterInstruction Key) → List (JupiterInstruction Key) → Type 0
  IsCleanup none cleanup = cleanup ≡ []
  IsCleanup (some ix) cleanup = cleanup ≡ ix ∷ []

  -- Jupiter's instructions for a swap: the setup, the swap itself, and the cleanup if there is one.
  abbrev pub SwapsBy : SwapInstructions Key → List (Instruction Key) → Type 0
  SwapsBy swap ixs =
      (cleanup : List (JupiterInstruction Key)) × (IsCleanup swap.cleanup_instruction cleanup)
      × (ixs ≡ map from_jupiter (swap.setup_instructions ++ (swap.swap_instruction ∷ cleanup)))

  -- Between the begin and the end: the payout itself, or Jupiter's swap, into the receiver's account,
  -- for a quote of the payout.
  abbrev pub PaysOut : Attempt → ℕ → BeginArgs Key → List (Instruction Key) → Type 0
  PaysOut a payout args between =
      if b.is_usdc a
      then (between ≡ transfer (executor_usdc_ata b) args.receiver_ata payout ∷ [])
        × (args.min_out_raw ≡ payout)
      else (quote : Quote) × (swap : SwapInstructions Key) × (b.quote a payout ≡ answered quote)
        × (b.swap_instructions quote args.receiver_ata ≡ answered swap)
        × (args.min_out_raw ≡ quote.other_amount_threshold)
        × (args.route_hash ≡ quote.route_hash)
        × SwapsBy swap between

  -- The mint is the candidate's, held by a token program that is supported, and the receiver is the
  -- account of the winner for it.
  pub record IsReceived (claim : Claim Key) (a : Attempt) (args : BeginArgs Key) : Type 0 where
    pub mint_owner : Key
    pub mint : b.new_public_key a.candidate.mint ≡ answered args.selected_mint
    pub owner : b.mint_owner args.selected_mint ≡ answered (some mint_owner)
    pub supported :
        (b.equals mint_owner b.token_program ≡ true)
        ⊎ (b.equals mint_owner b.token_2022_program ≡ true)
    pub receiver :
        args.receiver_ata ≡ b.associated_token_address args.selected_mint claim.winner mint_owner

  pub record IsExecution (claim : Claim Key) (a : Attempt) (payout : ℕ) (vrf_payer : Option Key)
      (ixs : List (Instruction Key)) : Type 0 where
    pub before : List (Instruction Key)
    pub args : BeginArgs Key
    pub between : List (Instruction Key)
    pub shape :
        ixs
        ≡ before
          ++ (begin_degen_execution args
              ∷ (between
                  ++ (finalize_degen_success claim.winner claim.round_id args.receiver_ata ∷ [])))
    pub prepares : All IsPreparation before
    pub winner : args.winner ≡ claim.winner
    pub round_id : args.round_id ≡ claim.round_id
    pub rank : args.candidate_rank ≡ a.candidate.rank
    pub token : args.token_index ≡ a.candidate.index
    pub payer : args.vrf_payer ≡ vrf_payer
    pub receives : IsReceived claim a args
    pub pays : PaysOut a payout args between

  drain_ixs-IsPreparation : (balance : Reply ℕ) → All IsPreparation (drain_ixs b balance)
  unfolding drain_ixs
  drain_ixs-IsPreparation (raised message) = tt
  drain_ixs-IsPreparation (answered amount) = elim (Bool-cases (ltb 0 amount)) [
    | inl stale ↦ rw stale ((refl, refl), tt)
    | inr empty ↦ rw empty tt
  ]

  prefix_ixs-IsPreparation :
      (claim : Claim Key) (mint mint_owner receiver_ata : Key)
      → All IsPreparation (prefix_ixs b claim mint mint_owner receiver_ata)
  unfolding prefix_ixs
  prefix_ixs-IsPreparation claim mint mint_owner receiver_ata =
      All-append IsPreparation _ _ (drain_ixs-IsPreparation _) (tt, tt)

  cu_limit_ixs-IsPreparation :
      (ixs : List (JupiterInstruction Key)) → All IsPreparation (cu_limit_ixs b ixs)
  unfolding cu_limit_ixs
  cu_limit_ixs-IsPreparation [] = tt
  cu_limit_ixs-IsPreparation (ix ∷ ixs) = elim (Bool-cases (is_cu_limit b ix)) [
    | inl limit ↦ rw limit (limit, cu_limit_ixs-IsPreparation ixs)
    | inr other ↦ rw other (cu_limit_ixs-IsPreparation ixs)
  ]

  body_ixs-SwapsBy : (swap : SwapInstructions Key) → SwapsBy swap (body_ixs b swap)
  unfolding body_ixs
  body_ixs-SwapsBy swap = go swap.cleanup_instruction
    where
      go :
          (o : Option (JupiterInstruction Key))
          → (cleanup : List (JupiterInstruction Key)) × IsCleanup o cleanup
            × (map from_jupiter swap.setup_instructions
                  ++ (from_jupiter swap.swap_instruction ∷ optional b o)
                ≡ map from_jupiter (swap.setup_instructions ++ (swap.swap_instruction ∷ cleanup)))
      go none = ([], refl, sym (map-append from_jupiter swap.setup_instructions _))
      go (some ix) = (ix ∷ [], refl, sym (map-append from_jupiter swap.setup_instructions _))

  module _ (claim : Claim Key) (a : Attempt) (payout : ℕ) (vrf_payer : Option Key)
      (mint mint_owner : Key) (at_mint : b.new_public_key a.candidate.mint ≡ answered mint)
      (owned : b.mint_owner mint ≡ answered (some mint_owner))
      (supported : (b.equals mint_owner b.token_program ≡ true)
        ⊎ (b.equals mint_owner b.token_2022_program ≡ true)) where
    abbrev receiver_ata : Key
    receiver_ata = b.associated_token_address mint claim.winner mint_owner

    receives :
        (min_out : ℕ) (route_hash : Buffer)
        → IsReceived claim a (begin_args b claim a min_out route_hash mint receiver_ata vrf_payer)
    receives min_out route_hash = record {
      mint_owner = mint_owner;
      mint = at_mint;
      owner = owned;
      supported = supported;
      receiver = refl;
    }

    direct_ixs-IsExecution :
        b.is_usdc a ≡ true
        → IsExecution claim a payout vrf_payer (
            direct_ixs b claim a payout mint mint_owner receiver_ata vrf_payer
            ++ (finalize_ix b claim receiver_ata ∷ []))
    direct_ixs-IsExecution direct = record {
      before =
          (set_compute_unit_limit 300000 ∷ prefix_ixs b claim mint mint_owner receiver_ata)
          ++ (set_compute_unit_price b.degen_priority_fee ∷ []);
      args = begin_args b claim a payout b.direct_usdc_hash mint receiver_ata vrf_payer;
      between = transfer (executor_usdc_ata b) receiver_ata payout ∷ [];
      shape = simp append_assoc;
      prepares = (
        tt,
        All-append IsPreparation (prefix_ixs b claim mint mint_owner receiver_ata) _
            (prefix_ixs-IsPreparation claim mint mint_owner receiver_ata) (tt, tt),
      );
      winner = refl;
      round_id = refl;
      rank = refl;
      token = refl;
      payer = refl;
      receives = receives payout b.direct_usdc_hash;
      pays = rw direct (refl, refl);
    }

    swap_ixs-IsExecution :
        (quote : Quote) (swap : SwapInstructions Key)
        → b.is_usdc a ≡ false
        → b.quote a payout ≡ answered quote
        → b.swap_instructions quote receiver_ata ≡ answered swap
        → IsExecution claim a payout vrf_payer (
            swap_ixs b claim a quote swap mint mint_owner receiver_ata vrf_payer
            ++ (finalize_ix b claim receiver_ata ∷ []))
    swap_ixs-IsExecution quote swap direct quoted swapped = record {
      before =
          prefix_ixs b claim mint mint_owner receiver_ata
          ++ (cu_limit_ixs b swap.compute_budget_instructions
              ++ (set_compute_unit_price b.degen_priority_fee ∷ []));
      args =
          begin_args b claim a quote.other_amount_threshold quote.route_hash mint receiver_ata
            vrf_payer;
      between = body_ixs b swap;
      shape = simp append_assoc;
      prepares =
          All-append IsPreparation _ _ (prefix_ixs-IsPreparation claim mint mint_owner receiver_ata)
            (All-append IsPreparation _ _
              (cu_limit_ixs-IsPreparation swap.compute_budget_instructions) (tt, tt));
      winner = refl;
      round_id = refl;
      rank = refl;
      token = refl;
      payer = refl;
      receives = receives quote.other_amount_threshold quote.route_hash;
      pays = rw direct (quote, swap, quoted, swapped, refl, refl, body_ixs-SwapsBy swap);
    }

    swap_middle-IsExecution :
        (made : Middle b)
        → b.is_usdc a ≡ false
        → swap_middle b claim a payout mint mint_owner receiver_ata vrf_payer ≡ answered made
        → IsExecution claim a payout vrf_payer (made.0 ++ (finalize_ix b claim receiver_ata ∷ []))
    unfolding swap_middle
    swap_middle-IsExecution made other e =
        let (quote, quoted, e1) = >>=-eq-answered (b.quote a payout) _ made e in
        let (swap, swapped, e2) =
          >>=-eq-answered (b.swap_instructions quote receiver_ata) _ made e1 in
        let (tables, _, e3) =
          >>=-eq-answered (resolve_lookup_tables b swap.lookup_table_addresses) _ made e2 in
        let same : swap_result b claim a mint mint_owner receiver_ata vrf_payer quote swap tables
            ≡ made =
          cc in
        subst
          (λ (m : Middle b).
            IsExecution claim a payout vrf_payer (m.0 ++ (finalize_ix b claim receiver_ata ∷ [])))
          same (swap_ixs-IsExecution quote swap other quoted swapped)

    middle-IsExecution :
        (made : Middle b)
        → middle b claim a payout mint mint_owner receiver_ata vrf_payer ≡ answered made
        → IsExecution claim a payout vrf_payer (made.0 ++ (finalize_ix b claim receiver_ata ∷ []))
    unfolding middle
    middle-IsExecution made e = elim (Bool-cases (b.is_usdc a)) [
      | inl direct ↦
          let same : ◌≡◌ {A = Middle b}
              (direct_ixs b claim a payout mint mint_owner receiver_ata vrf_payer, []) made =
            ground (arith, direct, e) in
          subst
            (λ (m : Middle b).
              IsExecution claim a payout vrf_payer (m.0 ++ (finalize_ix b claim receiver_ata ∷ [])))
            same (direct_ixs-IsExecution direct)
      | inr other ↦ swap_middle-IsExecution made other (rw other at e)
    ]

  assemble-IsExecution :
      (claim : Claim Key) (a : Attempt) (payout : ℕ) (vrf_payer : Option Key)
      (mint mint_owner : Key) (t : Built Key Table)
      → b.new_public_key a.candidate.mint ≡ answered mint
      → b.mint_owner mint ≡ answered (some mint_owner)
      → (b.equals mint_owner b.token_program ≡ true)
        ⊎ (b.equals mint_owner b.token_2022_program ≡ true)
      → assemble b claim a payout vrf_payer mint mint_owner ≡ answered t
      → IsExecution claim a payout vrf_payer t.instructions
  unfolding assemble
  assemble-IsExecution claim a payout vrf_payer mint mint_owner t at_mint owned supported e =
      let receiver_ata = b.associated_token_address mint claim.winner mint_owner in
      let (made, m, e1) =
        >>=-eq-answered (middle b claim a payout mint mint_owner receiver_ata vrf_payer) _ t e in
      let (blockhash, _, e2) = >>=-eq-answered b.latest_blockhash _ t e1 in
      let same : made.0 ++ (finalize_ix b claim receiver_ata ∷ []) ≡ t.instructions =
        ground (arith, e2) in
      subst (λ l. IsExecution claim a payout vrf_payer l) same
        (middle-IsExecution claim a payout vrf_payer mint mint_owner at_mint owned supported made m)

  supported_owner-answered :
      (mint : Key) (found : Option Key) (owner : Key)
      → supported_owner b mint found ≡ answered owner
      → (found ≡ some owner)
        × ((b.equals owner b.token_program ≡ true) ⊎ (b.equals owner b.token_2022_program ≡ true))
  unfolding supported_owner
  supported_owner-answered mint none owner e = cc
  supported_owner-answered mint (some found) owner e =
      elim (Bool-cases (b.equals found b.token_program)) [
        | inl token ↦
            let same : found ≡ owner = ground (arith, token, e) in
            (ap some same, inl (subst (λ k. b.equals k b.token_program ≡ true) same token))
        | inr other ↦ elim (Bool-cases (b.equals found b.token_2022_program)) [
          | inl token ↦
              let same : found ≡ owner = ground (arith, other, token, e) in
              (ap some same, inr (subst (λ k. b.equals k b.token_2022_program ≡ true) same token))
          | inr neither ↦ ground (arith, other, neither, e)
        ]
      ]

  -- Whatever the network and Jupiter answer, a transaction that is built prepares, begins the
  -- execution once, pays out, and ends with the finish; the receiver is the account of the claim's
  -- winner for the candidate's mint, which a supported token program holds. Before the begin,
  -- transfers go only from the executor's account to the treasury, and of Jupiter's instructions
  -- there are only compute limits. For USDC the payout is transferred to the receiver and is the
  -- least output. For another mint the instructions between are those of the swap that Jupiter
  -- answers for a quote of the payout and for the receiver, its setup, the swap and its cleanup, and
  -- the least output and the route are the quote's.
  pub build_execution_tx-IsExecution :
      (claim : Claim Key) (a : Attempt) (payout : ℕ) (vrf_payer : Option Key) (t : Built Key Table)
      → build_execution_tx b claim a payout vrf_payer ≡ answered t
      → IsExecution claim a payout vrf_payer t.instructions
  unfolding build_execution_tx build_for_mint
  build_execution_tx-IsExecution claim a payout vrf_payer t e =
      let (mint, at_mint, e1) =
        >>=-eq-answered (b.new_public_key a.candidate.mint)
          (build_for_mint b claim a payout vrf_payer) t e in
      let (found, looked_up, e2) =
        >>=-eq-answered (b.mint_owner mint)
          (λ found. supported_owner b mint found >>= assemble b claim a payout vrf_payer mint) t
          e1 in
      let (mint_owner, checked, e3) =
        >>=-eq-answered (supported_owner b mint found) (assemble b claim a payout vrf_payer mint) t
          e2 in
      let (is_owner, supported) = supported_owner-answered mint found mint_owner checked in
      assemble-IsExecution claim a payout vrf_payer mint mint_owner t at_mint
        (looked_up ∙ ap answered is_owner) supported e3
