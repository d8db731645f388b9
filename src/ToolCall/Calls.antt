-- ===== src/ToolCall/Calls.antt =====
-- The calls of the parser: each that starts ends once, in order, with the next id.
use mini_cpm5_5080fast.Base.{
  ℕ, zero, suc, ◌+◌, ◌≡◌, refl, ap, List, [], ◌∷◌, ◌++◌, map, length, arith, append_assoc,
  append-nil, length-append,
}
use mini_cpm5_5080fast.Bytes.{Bytes}
use mini_cpm5_5080fast.ToolCall.{
  ToolCall, ToolCallEvent, State, in_text, in_function, in_param, in_cdata, ToolCallParser,
  with_buf, call_id,
}
use mini_cpm5_5080fast.ToolCall.Events.{ended, started, ended-append, started-append}

-- 1 inside a function element
abbrev pub opened : State → ℕ
opened in_text = 0
opened in_function = 1
opened in_param = 1
opened in_cdata = 1

-- `n` ids in a row
unfoldable pub ids_from : ℕ → ℕ → List Bytes
ids_from k zero = []
ids_from k (suc n) = call_id k ∷ ids_from (k + 1) n

-- What the events from parser `p` to parser `q` are.
pub record Counted (p q : ToolCallParser) (es : List ToolCallEvent) : Type 0 where
  pub calls_are : q.calls ≡ p.calls ++ ended es
  pub seq_is : q.call_seq ≡ p.call_seq + length (ended es)
  pub balanced : started es + opened p.state ≡ length (ended es) + opened q.state
  pub ids_are : map (λ c. c.id) (ended es) ≡ ids_from p.call_seq (length (ended es))

-- Nothing of the calls changes, and no call starts or ends.
pub record Quiet (p q : ToolCallParser) (es : List ToolCallEvent) : Type 0 where
  pub calls_same : q.calls ≡ p.calls
  pub seq_same : q.call_seq ≡ p.call_seq
  pub state_same : opened q.state ≡ opened p.state
  pub no_end : ended es ≡ []
  pub no_start : started es ≡ 0

pub Quiet-Counted : (p q : ToolCallParser) (es : List ToolCallEvent) → Quiet p q es → Counted p q es
unfolding ids_from
Quiet-Counted p q es k = record {
  calls_are = rw (k.no_end, append-nil) k.calls_same;
  seq_is = rw k.no_end (omega (arith, k.seq_same));
  balanced = rw (k.no_end, k.no_start, k.state_same) refl;
  ids_are = rw k.no_end refl;
}

zero_add : (m : ℕ) → 0 + m ≡ m
zero_add m = omega arith

suc_add : (n m : ℕ) → suc n + m ≡ suc (n + m)
suc_add n m = omega arith

add_shift : (k n : ℕ) → k + 1 + n ≡ k + suc n
add_shift k n = omega arith

add_zero : (k : ℕ) → k + 0 ≡ k
add_zero k = omega arith

ids_from-append : (k n m : ℕ) → ids_from k (n + m) ≡ ids_from k n ++ ids_from (k + n) m
unfolding ids_from
ids_from-append k zero m = rw (zero_add m, add_zero k) refl
ids_from-append k (suc n) m =
    rw (suc_add n m, ← add_shift k n) (ap (◌∷◌ (call_id k)) (ids_from-append (k + 1) n m))

map-append :
    (f : ToolCall → Bytes) (xs ys : List ToolCall) → map f (xs ++ ys) ≡ map f xs ++ map f ys
map-append f [] ys = refl
map-append f (x ∷ xs) ys = ap (◌∷◌ (f x)) (map-append f xs ys)

pub Counted-trans :
    (p q r : ToolCallParser) (es es' : List ToolCallEvent)
    → Counted p q es
    → Counted q r es'
    → Counted p r (es ++ es')
unfolding ids_from
Counted-trans p q r es es' a b =
    let e = ended-append es es' in
    let l = length-append (ended es) (ended es') in
    record {
      calls_are = rw (e, b.calls_are, a.calls_are) (append_assoc p.calls (ended es) (ended es'));
      seq_is = rw e (omega (arith, l, a.seq_is, b.seq_is));
      balanced = rw (e, started-append es es') (omega (arith, l, a.balanced, b.balanced));
      ids_are =
          rw
            (
              e,
              l,
              map-append (λ c. c.id) (ended es) (ended es'),
              ids_from-append p.call_seq (length (ended es)) (length (ended es')),
              a.ids_are,
              b.ids_are,
              a.seq_is,
            )
            refl;
    }

-- The buffer is no part of what is counted.
pub Quiet-with_buf :
    (p q : ToolCallParser) (b : Bytes) (es : List ToolCallEvent)
    → Quiet (with_buf p b) q es
    → Quiet p q es
Quiet-with_buf p q b es k = record {
  calls_same = k.calls_same;
  seq_same = k.seq_same;
  state_same = k.state_same;
  no_end = k.no_end;
  no_start = k.no_start;
}

pub Counted-with_buf :
    (p q : ToolCallParser) (b : Bytes) (es : List ToolCallEvent)
    → Counted (with_buf p b) q es
    → Counted p q es
Counted-with_buf p q b es c = record {
  calls_are = c.calls_are;
  seq_is = c.seq_is;
  balanced = c.balanced;
  ids_are = c.ids_are;
}
