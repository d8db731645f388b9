-- ===== src/Runtime/Native.antt =====
-- rust/minicpm-runtime/src/native.rs: what the binding checks before and after it calls the shared library.
-- The library's functions are a parameter: each may change its state in any way, and gives a status and what
-- it writes through its out pointers. A null handle is 0.
use mini_cpm5_5080fast.Base.{
  ℕ, zero, suc, ◌+◌, ◌≡◌, ◌≤◌, refl, Bool, true, false, not, ◌&&◌, Option, none, some, List, [],
  ◌∷◌, map, ltb, ◌==◌, length, if◌then◌else◌, arith, Bool-cases, inl, inr, ◌⊎◌, ◌∙◌, ◌++◌, ap,
}
use mini_cpm5_5080fast.Bytes.{Bytes}
use mini_cpm5_5080fast.Bytes.Text.{codes}
use mini_cpm5_5080fast.Runtime.{GenerationConfig, McGenerationConfigT, is_greedy, to_native}

pub record RuntimeError : Type 0 where
  pub status : ℕ
  pub message : Bytes

-- Why a call of the binding fails.
pub data Failure : Type 0 where
  runtime : RuntimeError → Failure
  wrong_tier : ℕ → ℕ → Failure
  null_group : Failure
  not_native : Failure
  wrong_lengths : Failure
  not_greedy : ℕ → Failure

pub data Result (A : Type 0) : Type 0 where
  done : A → Result A
  refused : Failure → Result A

pub record McBatchOptionsT : Type 0 where
  pub struct_size : ℕ
  pub abi_version : ℕ
  pub max_slots : ℕ
  pub max_context_tokens : ℕ

pub record BatchGroupOptions : Type 0 where
  pub max_slots : ℕ
  pub max_context_tokens : ℕ

pub record NativeApi (W : Type 0) : Type 0 where
  pub last_error : W → Option Bytes
  pub batch_group_create : W → ℕ → McBatchOptionsT → W × ℕ × ℕ
  pub batch_group_add : W → ℕ → ℕ → W × ℕ × ℕ
  pub batch_group_remove : W → ℕ → ℕ → W × ℕ
  pub batch_step : W → ℕ → List ℕ → List McGenerationConfigT → W × ℕ × List ℕ

abbrev pub max_batch_slots : ℕ
max_batch_slots = 8

-- `clamp(1, MC_MAX_BATCH_SLOTS)`
abbrev pub clamp_slots : ℕ → ℕ
clamp_slots n = if ltb n 1 then 1 else if ltb max_batch_slots n then max_batch_slots else n

abbrev pub message_or : Option Bytes → Bytes
message_or (some m) = m
message_or none = codes "<no error message>"

unfoldable pub non_empty : List ℕ → Bool
non_empty [] = false
non_empty (x ∷ xs) = true

-- the first configuration, from index `i` on, that is not greedy
unfoldable pub first_sampled : ℕ → List GenerationConfig → Option ℕ
first_sampled i [] = none
first_sampled i (c ∷ cs) =
    let rest = first_sampled (i + 1) cs in if is_greedy c then rest else some i

unfoldable pub batch_options : ℕ → BatchGroupOptions → McBatchOptionsT
batch_options tier opts = record {
  struct_size = 32;
  abi_version = 0x20000;
  max_slots = clamp_slots opts.max_slots;
  max_context_tokens = tier;
}

module _ {W : Type 0} (api : NativeApi W) where
  -- `check`, with the value for a call that went well
  unfoldable pub check : {A : Type 0} → W → ℕ → A → Result A
  check w status a =
      if status == 0
      then Result.done a
      else Result.refused
          (Failure.runtime (record { status = status; message = message_or (api.last_error w) }))

  -- the handle of the group, once the status is good
  unfoldable pub group_of : Result ℕ → Result ℕ
  group_of (Result.refused why) = Result.refused why
  group_of (Result.done zero) = Result.refused Failure.null_group
  group_of (Result.done (suc h)) = Result.done (suc h)

  unfoldable pub create_batch_group : W → ℕ → ℕ → BatchGroupOptions → W × Result ℕ
  unfolding check group_of batch_options
  create_batch_group w model tier opts =
      if not (opts.max_context_tokens == 0) && not (opts.max_context_tokens == tier)
      then (w, Result.refused (Failure.wrong_tier opts.max_context_tokens tier))
      else (let (w', status, handle) = api.batch_group_create w model (batch_options tier opts) in
          (w', group_of (check w' status handle)))

  -- a session that is not one of this engine is `none`
  unfoldable pub add : W → ℕ → Option ℕ → W × Result ℕ
  unfolding check
  add w group none = (w, Result.refused Failure.not_native)
  add w group (some session) =
      let (w', status, slot) = api.batch_group_add w group session in (w', check w' status slot)

  unfoldable pub remove : W → ℕ → ℕ → W × Result ℕ
  unfolding check
  remove w group slot =
      let (w', status) = api.batch_group_remove w group slot in (w', check w' status slot)

  unfoldable pub call_step : W → ℕ → List ℕ → List GenerationConfig → W × Result (List ℕ)
  unfolding check
  call_step w group slots cfgs =
      let (w', status, tokens) = api.batch_step w group slots (map to_native cfgs) in
      (w', check w' status tokens)

  unfoldable pub step : W → ℕ → List ℕ → List GenerationConfig → W × Result (List ℕ)
  unfolding first_sampled call_step non_empty
  step w group slots cfgs =
      if non_empty slots && length slots == length cfgs
      then elim (first_sampled 0 cfgs) [
        | some i ↦ (w, Result.refused (Failure.not_greedy i))
        | none ↦ call_step w group slots cfgs
      ]
      else (w, Result.refused Failure.wrong_lengths)

-- what the library wants of a step
unfoldable pub all_greedy : List GenerationConfig → Bool
all_greedy [] = true
all_greedy (c ∷ cs) = is_greedy c && all_greedy cs

-- `i` is the place of the first configuration that is not greedy.
abbrev pub FirstSampled : ℕ → List GenerationConfig → Type 0
FirstSampled i cs =
    (before after : List GenerationConfig) × (c : GenerationConfig) × (cs ≡ before ++ c ∷ after)
    × (length before ≡ i)
    × (all_greedy before ≡ true)
    × (is_greedy c ≡ false)

first_sampled-FirstSampled :
    (k : ℕ) (cs : List GenerationConfig)
    → ((all_greedy cs ≡ true) × (first_sampled k cs ≡ none))
      ⊎ ((i : ℕ) × (first_sampled k cs ≡ some (i + k)) × FirstSampled i cs)
unfolding all_greedy first_sampled
first_sampled-FirstSampled k [] = inl (refl, refl)
first_sampled-FirstSampled k (c ∷ cs) = elim (Bool-cases (is_greedy c)) [
  | inr g ↦ rw g (inr (0, ap some (omega arith), ([], cs, c, refl, refl, refl, g)))
  | inl g ↦ elim (first_sampled-FirstSampled (k + 1) cs) [
    | inl (a, f) ↦ rw g (inl (a, f))
    | inr (i, f, (before, after, d, is, len, quiet, loud)) ↦ rw g (
        inr (
          i + 1,
          f ∙ ap some (omega arith),
          (
            c ∷ before,
            after,
            d,
            ap (λ x. c ∷ x) is,
            omega (arith, len),
            ground (arith, g, quiet),
            loud,
          ),
        ))
  ]
]

-- What a step answers, from what the library answered: the tokens if the status is 0, or else the status
-- with the library's message for it.
unfoldable pub Reported : {W : Type 0} → NativeApi W → W × ℕ × List ℕ → W × Result (List ℕ) → Type 0
Reported api (w, status, tokens) o =
    (o.0 ≡ w)
    × ((status ≡ 0) → o.1 ≡ Result.done tokens)
    × (¬ (status ≡ 0)
        → o.1
          ≡ Result.refused (
              Failure.runtime
                (record { status = status; message = message_or (api.last_error w) })))

call_step-Reported :
    {W : Type 0} (api : NativeApi W) (w : W) (group : ℕ) (slots : List ℕ)
    (cfgs : List GenerationConfig)
    → Reported api
        (api.batch_step w group slots (map to_native cfgs))
        (call_step api w group slots cfgs)
unfolding call_step check Reported
call_step-Reported api w group slots cfgs = (
  refl,
  (λ z. rw z refl),
  λ n. elim (Bool-cases ((api.batch_step w group slots (map to_native cfgs)).1 == 0)) [
    | inl e ↦ absurd (n (ground (arith, e)))
    | inr e ↦ rw e refl
  ],
)

-- A step does exactly one of three things. Without slots, or with another number of configurations than
-- slots, it is refused for that. Otherwise, if some configuration is not greedy, it is refused with the
-- place of the first one. In both cases the library is as it was. Otherwise the
-- library is called once, with the slots and the native form of the configurations, all of which are greedy,
-- and the step gives the tokens of that call if its status is 0, or else its status and message.
pub step-guarded :
    {W : Type 0} (api : NativeApi W) (w : W) (group : ℕ) (slots : List ℕ)
    (cfgs : List GenerationConfig)
    → let o = step api w group slots cfgs in
      (((slots ≡ []) ⊎ (¬ (length slots ≡ length cfgs)))
        × (o ≡ (w, Result.refused Failure.wrong_lengths)))
      ⊎ ((¬ (slots ≡ []))
          × (length slots ≡ length cfgs)
          × (((i : ℕ) × FirstSampled i cfgs × (o ≡ (w, Result.refused (Failure.not_greedy i))))
              ⊎ ((all_greedy cfgs ≡ true)
                  × Reported api (api.batch_step w group slots (map to_native cfgs)) o)))
unfolding step non_empty
step-guarded api w group [] cfgs = inl (inl refl, refl)
step-guarded api w group (k ∷ ks) cfgs =
    let slots = k ∷ ks in
    elim (Bool-cases (length slots == length cfgs)) [
      | inr n ↦ rw n (inl (inr (λ e. ground (arith, n, e)), refl))
      | inl y ↦ rw y (
          inr (
            (λ z. cc),
            ground (arith, y),
            elim (first_sampled-FirstSampled 0 cfgs) [
              | inl (g, f) ↦ rw f (inr (g, call_step-Reported api w group slots cfgs))
              | inr (i, f, at) ↦
                  let here : first_sampled 0 cfgs ≡ some i = f ∙ ap some (omega arith) in
                  rw here (inl (i, at, refl))
            ],
          ))
    ]

-- The group that the library is asked for has between one slot and the most that it allows, and the tier of
-- the model.
batch_options-fits :
    (tier : ℕ) (opts : BatchGroupOptions)
    → let o = batch_options tier opts in
      (1 ≤ o.max_slots) × (o.max_slots ≤ max_batch_slots) × (o.max_context_tokens ≡ tier)
unfolding batch_options
batch_options-fits tier opts = (ground arith, ground arith, refl)
