-- ===== src/Executor/Build.antt =====
-- `buildExecutionTx` (crank/src/degenExecutor.ts): the instructions of one attempt to swap a prize.
-- Keys, the derivation of token accounts and the hash of a route are parameters, and so is what the
-- network and Jupiter answer.
pub mod Shape
use winny.Base.{
  Reply, answered, raised, ℕ, Bool, true, false, not, ◌||◌, ◌&&◌, Option, none, some, List, [], ◌∷◌,
  ◌++◌, map, ltb, ◌==◌, if◌then◌else◌, get_elem?,
}
use winny.Text.{JsString, codes}
use winny.Bytes.{Buffer}
use winny.Executor.{Attempt}

infixl 5 ◌>>=◌
abbrev pub ◌>>=◌ : {A B : Type 0} → Reply A → (A → Reply B) → Reply B
answered a >>= f = f a
raised message >>= f = raised message

-- An instruction of Jupiter, as `deserializeInstruction` makes it.
pub record JupiterInstruction (Key : Type 0) : Type 0 where
  pub program_id : Key
  pub keys : List Key
  pub payload : Buffer

pub record SwapInstructions (Key : Type 0) : Type 0 where
  pub compute_budget_instructions : List (JupiterInstruction Key)
  pub setup_instructions : List (JupiterInstruction Key)
  pub swap_instruction : JupiterInstruction Key
  pub cleanup_instruction : Option (JupiterInstruction Key)
  pub lookup_table_addresses : List Key

pub record Quote : Type 0 where
  pub other_amount_threshold : ℕ
  pub route_hash : Buffer

pub record BeginArgs (Key : Type 0) : Type 0 where
  pub winner : Key
  pub round_id : ℕ
  pub candidate_rank : ℕ
  pub token_index : ℕ
  pub min_out_raw : ℕ
  pub route_hash : Buffer
  pub selected_mint : Key
  pub receiver_ata : Key
  pub vrf_payer : Option Key

pub data Instruction (Key : Type 0) : Type 0 where
  transfer : (from to : Key) → ℕ → Instruction Key
  create_ata : (ata owner mint token_program : Key) → Instruction Key
  set_compute_unit_limit : ℕ → Instruction Key
  set_compute_unit_price : ℕ → Instruction Key
  begin_degen_execution : BeginArgs Key → Instruction Key
  finalize_degen_success : (winner : Key) → ℕ → (receiver_ata : Key) → Instruction Key
  from_jupiter : JupiterInstruction Key → Instruction Key

pub record Built (Key Table : Type 0) : Type 0 where
  pub instructions : List (Instruction Key)
  pub lookup_tables : List Table
  pub blockhash : JsString

-- The part of a claim's account that is used.
pub record Claim (Key : Type 0) : Type 0 where
  pub winner : Key
  pub round_id : ℕ

pub record Builder (Key Table : Type 0) : Type 0 where
  pub equals : Key → Key → Bool
  pub to_base58 : Key → JsString
  -- `candidate.mint === USDC_MINT.toBase58()`
  pub is_usdc : Attempt → Bool
  -- `new PublicKey(mint)`
  pub new_public_key : Option JsString → Reply Key
  pub associated_token_address : (mint owner token_program : Key) → Key
  pub token_program : Key
  pub token_2022_program : Key
  pub compute_budget_program : Key
  pub usdc_mint : Key
  pub treasury_usdc_ata : Key
  pub executor : Key
  pub degen_priority_fee : ℕ
  pub direct_usdc_hash : Buffer
  pub jackpot_alt : Option Table
  -- `getMintOwner`, with its cache.
  pub mint_owner : Key → Reply (Option Key)
  pub token_account_balance : Key → Reply ℕ
  -- The answer to a request with the attempt's limits, for an output mint and an amount.
  pub quote : Attempt → ℕ → Reply Quote
  pub swap_instructions : Quote → Key → Reply (SwapInstructions Key)
  -- The tables that stand in the accounts at some addresses; none without an account.
  pub lookup_table_accounts : List Key → Reply (List (Option Table))
  pub latest_blockhash : Reply JsString

abbrev pub degen_direct_usdc_cu_limit : ℕ
degen_direct_usdc_cu_limit = 300000

module _ {Key Table : Type 0} (b : Builder Key Table) where
  unfoldable pub supported_owner : Key → Option Key → Reply Key
  supported_owner mint none = raised (codes "selected mint account not found: " ++ b.to_base58 mint)
  supported_owner mint (some owner) =
      if not (b.equals owner b.token_program) && not (b.equals owner b.token_2022_program)
      then raised (
          codes "unsupported selected mint program for v3 degen execution: "
          ++ b.to_base58 mint
          ++ codes " owner="
          ++ b.to_base58 owner)
      else answered owner

  abbrev pub executor_usdc_ata : Key
  executor_usdc_ata = b.associated_token_address b.usdc_mint b.executor b.token_program

  -- `drainIxs`: a balance that is left over goes to the treasury; an error is caught.
  unfoldable pub drain_ixs : Reply ℕ → List (Instruction Key)
  drain_ixs (raised message) = []
  drain_ixs (answered stale_amount) =
      if ltb 0 stale_amount
      then transfer executor_usdc_ata b.treasury_usdc_ata stale_amount ∷ []
      else []

  unfoldable pub prefix_ixs :
      Claim Key → (mint mint_owner receiver_ata : Key) → List (Instruction Key)
  prefix_ixs claim mint mint_owner receiver_ata =
      drain_ixs (b.token_account_balance executor_usdc_ata)
      ++ (create_ata receiver_ata claim.winner mint mint_owner ∷ [])

  -- `ix.data[0] === 2` for the instructions of the compute budget program.
  abbrev pub is_two : Option ℕ → Bool
  is_two none = false
  is_two (some n) = n == 2

  unfoldable pub is_cu_limit : JupiterInstruction Key → Bool
  is_cu_limit ix =
      b.equals ix.program_id b.compute_budget_program && is_two (get_elem? ix.payload 0)

  unfoldable pub cu_limit_ixs : List (JupiterInstruction Key) → List (Instruction Key)
  cu_limit_ixs [] = []
  cu_limit_ixs (ix ∷ ixs) =
      let rest = cu_limit_ixs ixs in if is_cu_limit ix then from_jupiter ix ∷ rest else rest

  abbrev pub optional : Option (JupiterInstruction Key) → List (Instruction Key)
  optional none = []
  optional (some ix) = from_jupiter ix ∷ []

  unfoldable pub body_ixs : SwapInstructions Key → List (Instruction Key)
  body_ixs swap =
      map from_jupiter swap.setup_instructions
      ++ (from_jupiter swap.swap_instruction ∷ optional swap.cleanup_instruction)

  abbrev pub begin_args :
      Claim Key → Attempt → ℕ → Buffer → (mint receiver_ata : Key) → Option Key → BeginArgs Key
  begin_args claim a min_out route_hash mint receiver_ata vrf_payer = record {
    winner = claim.winner;
    round_id = claim.round_id;
    candidate_rank = a.candidate.rank;
    token_index = a.candidate.index;
    min_out_raw = min_out;
    route_hash = route_hash;
    selected_mint = mint;
    receiver_ata = receiver_ata;
    vrf_payer = vrf_payer;
  }

  abbrev pub begin_ix :
      Claim Key → Attempt → ℕ → Buffer → (mint receiver_ata : Key) → Option Key → Instruction Key
  begin_ix claim a min_out route_hash mint receiver_ata vrf_payer =
      begin_degen_execution (begin_args claim a min_out route_hash mint receiver_ata vrf_payer)

  abbrev pub finalize_ix : Claim Key → Key → Instruction Key
  finalize_ix claim receiver_ata = finalize_degen_success claim.winner claim.round_id receiver_ata

  abbrev pub direct_ixs :
      Claim Key
      → Attempt
      → ℕ
      → (mint mint_owner receiver_ata : Key) → Option Key
      → List (Instruction Key)
  direct_ixs claim a payout mint mint_owner receiver_ata vrf_payer =
      (set_compute_unit_limit degen_direct_usdc_cu_limit
        ∷ prefix_ixs claim mint mint_owner receiver_ata)
      ++ (set_compute_unit_price b.degen_priority_fee
          ∷ begin_ix claim a payout b.direct_usdc_hash mint receiver_ata vrf_payer
          ∷ transfer executor_usdc_ata receiver_ata payout
          ∷ [])

  abbrev pub swap_ixs :
      Claim Key
      → Attempt
      → Quote
      → SwapInstructions Key
      → (mint mint_owner receiver_ata : Key) → Option Key
      → List (Instruction Key)
  swap_ixs claim a quote swap mint mint_owner receiver_ata vrf_payer =
      prefix_ixs claim mint mint_owner receiver_ata
      ++ (cu_limit_ixs swap.compute_budget_instructions
          ++ (set_compute_unit_price b.degen_priority_fee
              ∷ begin_ix claim a quote.other_amount_threshold quote.route_hash mint receiver_ata
                  vrf_payer
              ∷ body_ixs swap))

  unfoldable pub present_tables : List (Option Table) → List Table
  present_tables [] = []
  present_tables (none ∷ accounts) = present_tables accounts
  present_tables (some table ∷ accounts) = table ∷ present_tables accounts

  unfoldable pub resolve_lookup_tables : List Key → Reply (List Table)
  resolve_lookup_tables [] = answered []
  resolve_lookup_tables (address ∷ addresses) = do
    accounts ← b.lookup_table_accounts (address ∷ addresses)
    answered (present_tables accounts)

  -- The instructions between the prefix and the finish, and the lookup tables.
  abbrev pub Middle : Type 0
  Middle = List (Instruction Key) × List Table

  abbrev pub swap_result :
      Claim Key
      → Attempt
      → (mint mint_owner receiver_ata : Key) → Option Key
      → Quote
      → SwapInstructions Key
      → List Table
      → Middle
  swap_result claim a mint mint_owner receiver_ata vrf_payer quote swap tables =
      (swap_ixs claim a quote swap mint mint_owner receiver_ata vrf_payer, tables)

  unfoldable pub swap_middle :
      Claim Key → Attempt → ℕ → (mint mint_owner receiver_ata : Key) → Option Key → Reply Middle
  swap_middle claim a payout mint mint_owner receiver_ata vrf_payer = do
    quote ← b.quote a payout
    swap ← b.swap_instructions quote receiver_ata
    tables ← resolve_lookup_tables swap.lookup_table_addresses
    answered (swap_result claim a mint mint_owner receiver_ata vrf_payer quote swap tables)

  -- The branches of `if (candidate.mint === USDC_MINT.toBase58())`.
  unfoldable pub middle :
      Claim Key → Attempt → ℕ → (mint mint_owner receiver_ata : Key) → Option Key → Reply Middle
  middle claim a payout mint mint_owner receiver_ata vrf_payer =
      if b.is_usdc a
      then answered (direct_ixs claim a payout mint mint_owner receiver_ata vrf_payer, [])
      else swap_middle claim a payout mint mint_owner receiver_ata vrf_payer

  abbrev pub merged_alts : Option Table → List Table → List Table
  merged_alts none tables = tables
  merged_alts (some alt) tables = alt ∷ tables

  -- From the derivation of the receiver's account on.
  unfoldable pub assemble :
      Claim Key → Attempt → ℕ → Option Key → (mint mint_owner : Key) → Reply (Built Key Table)
  assemble claim a payout vrf_payer mint mint_owner = do
    let receiver_ata = b.associated_token_address mint claim.winner mint_owner
    made ← middle claim a payout mint mint_owner receiver_ata vrf_payer
    blockhash ← b.latest_blockhash
    answered (record {
      instructions = made.0 ++ (finalize_ix claim receiver_ata ∷ []);
      lookup_tables = merged_alts b.jackpot_alt made.1;
      blockhash = blockhash;
    })

  unfoldable pub build_for_mint :
      Claim Key → Attempt → ℕ → Option Key → Key → Reply (Built Key Table)
  build_for_mint claim a payout vrf_payer mint = do
    found ← b.mint_owner mint
    mint_owner ← supported_owner mint found
    assemble claim a payout vrf_payer mint mint_owner

  unfoldable pub build_execution_tx : Claim Key → Attempt → ℕ → Option Key → Reply (Built Key Table)
  build_execution_tx claim a payout vrf_payer = do
    mint ← b.new_public_key a.candidate.mint
    build_for_mint claim a payout vrf_payer mint
