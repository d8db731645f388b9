-- ===== src/Runtime/Tests.antt =====
-- Which configurations are greedy, and a step that is refused.
use mini_cpm5_5080fast.Base.{ℕ, ◌+◌, true, false, ◌≡◌, refl, ◌⊎◌, none, List, [], ◌∷◌, map, length}
use mini_cpm5_5080fast.Runtime.Native.{
  NativeApi, step, call_step, non_empty, all_greedy, Reported, FirstSampled, Result, Failure,
  first_sampled, check, step-guarded, Result, first_sampled, check, Failure, FirstSampled, Reported,
}
use mini_cpm5_5080fast.Runtime.{GenerationConfig, default, is_greedy, to_native}

default_not_greedy : is_greedy default ≡ false
unfolding is_greedy
default_not_greedy = refl

-- -0.0 counts as a temperature of at most 0
negative_zero_greedy : is_greedy (record default { temperature = 0x80000000 }) ≡ true
unfolding is_greedy
negative_zero_greedy = refl

-- a NaN does not
nan_not_greedy : is_greedy (record default { temperature = 0xFFC00000 }) ≡ false
unfolding is_greedy
nan_not_greedy = refl

-- A library that counts its calls and gives each slot the token 7.
abbrev counting_api : NativeApi ℕ
counting_api = record {
  last_error = λ n. none;
  batch_group_create = λ n model options. (n + 1, 0, 1);
  batch_group_add = λ n group session. (n + 1, 0, 0);
  batch_group_remove = λ n group slot. (n + 1, 0);
  batch_step = λ n group ids configs. (n + 1, 0, map (λ s. 7) ids);
}

abbrev slots : List ℕ
slots = 0 ∷ 1 ∷ []

abbrev greedy : GenerationConfig
greedy = record default { temperature = 0 }

abbrev cfgs : List GenerationConfig
cfgs = greedy ∷ greedy ∷ []

-- the library is called
step-guarded_example :
    let o = step counting_api 0 1 slots cfgs in
    (((slots ≡ []) ⊎ (¬ (length slots ≡ length cfgs)))
      × (o ≡ (0, Result.refused Failure.wrong_lengths)))
    ⊎ ((¬ (slots ≡ []))
        × (length slots ≡ length cfgs)
        × (((i : ℕ) × FirstSampled i cfgs × (o ≡ (0, Result.refused (Failure.not_greedy i))))
            ⊎ ((all_greedy cfgs ≡ true)
                × Reported counting_api
                    (counting_api.batch_step 0 1 slots (map to_native cfgs))
                    o)))
step-guarded_example = step-guarded counting_api 0 1 slots cfgs

called_test : step counting_api 0 1 slots cfgs ≡ (1, Result.done (7 ∷ 7 ∷ []))
unfolding step non_empty first_sampled is_greedy call_step check
called_test = refl

-- the second configuration samples
sampled_test :
    step counting_api 0 1 slots (greedy ∷ default ∷ []) ≡ (0, Result.refused (Failure.not_greedy 1))
unfolding step non_empty first_sampled is_greedy
sampled_test = refl
