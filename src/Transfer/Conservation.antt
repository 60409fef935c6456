-- ===== src/Transfer/Conservation.antt =====
-- Whole-number balances under `handleTransfer`, and their sum.
use axiler_fin.Base.{
  ℕ, ◌+◌, ◌-◌, ◌≤◌, String, ◌≡◌, inl, inr, Option, some, [], ◌∷◌, Dict, lookup, modify,
  lookup-modify, arith, Bool-cases, Option-cases, ◌=ˢ◌, subst, sym, ap, ◌∙◌, ltb, false,
}
use axiler_fin.Base.Int.{pos}
use axiler_fin.Base.Float.{Float64, Ieee, exact_bound}
use axiler_fin.Models.{Account, TransferRequest}
use axiler_fin.Http.{Body, Request}
use axiler_fin.Context.{Context}
use axiler_fin.Transfer.{TransferTimes, execute, debit, credit, handle_transfer}
use axiler_fin.Transfer.Effects.{Approved, handle_transfer_atomic}

-- Sums and differences of whole numbers up to the bound are exact in binary64.
pub record ExactInts (fl : Float64) : Type 0 where
  pub sum :
      (m n : ℕ)
      → m + n ≤ exact_bound
      → fl.add (fl.of_int (pos m)) (fl.of_int (pos n)) ≡ fl.of_int (pos (m + n))
  pub difference :
      (m n : ℕ)
      → m + n ≤ exact_bound
      → fl.sub (fl.of_int (pos (m + n))) (fl.of_int (pos n)) ≡ fl.of_int (pos m)

module _ (fl : Float64) where
  open fl use {F, of_int, add, sub, lt}

  -- The balances are whole numbers, and this is their sum.
  abbrev pub SumsTo : Dict (Account F) → ℕ → Type 0
  SumsTo [] n = n ≡ 0
  SumsTo ((id, acc) ∷ rest) n =
      (b : ℕ) × (r : ℕ) × (acc.balance ≡ of_int (pos b)) × (n ≡ b + r) × SumsTo rest r

  -- An account's balance is one of the numbers, and a write of another balance changes the sum by the
  -- difference.
  record Part (m : Dict (Account F)) (n : ℕ) (k : String) (acc : Account F) : Type 0 where
    balance : ℕ
    whole : acc.balance ≡ of_int (pos balance)
    within : balance ≤ n
    write :
        (f : Account F → Account F) (b n' : ℕ)
        → (f acc).balance ≡ of_int (pos b)
        → n' + balance ≡ n + b
        → SumsTo (modify k f m) n'

  lookup-Part :
      (k : String) (m : Dict (Account F)) (n : ℕ) (acc : Account F)
      → lookup k m ≡ some acc
      → SumsTo m n
      → Part m n k acc
  unfolding lookup modify
  lookup-Part k [] n acc e h = absurd (ground arith)
  lookup-Part k ((j, w) ∷ m) n acc e (b, r, whole, sum, h) = elim (Bool-cases (j =ˢ k)) [
    | inl same ↦
        let found : w ≡ acc = ground arith in
        record {
          balance = b;
          whole = ap (λ a. a.balance) (sym found) ∙ whole;
          within = omega (arith, sum);
          write = λ f b' n' e' sum'.
              rw same (b', r, ap (λ a. (f a).balance) found ∙ e', omega (arith, sum, sum'), h);
        }
    | inr other ↦
        let p = lookup-Part k m r acc (ground arith) h in
        record {
          balance = p.balance;
          whole = p.whole;
          within = omega (arith, sum, p.within);
          write = λ f b' n' e' sum'.
              let r' = r - p.balance + b' in
              rw other (
                b,
                r',
                whole,
                omega (arith, sum, sum', p.within),
                p.write f b' r' e' (omega (arith, p.within)),
              );
        }
  ]

  module _ (laws : Ieee fl) (exact : ExactInts fl) where
    covered-le :
        (b m : ℕ) (balance amount : F)
        → b ≤ exact_bound
        → m ≤ exact_bound
        → balance ≡ of_int (pos b)
        → amount ≡ of_int (pos m)
        → lt balance amount ≡ false
        → m ≤ b
    covered-le b m balance amount hb hm eb em h =
        let small : ltb b m ≡ false = sym (laws.lt-int b m hb hm) ∙ (rw (eb, em) at h) in
        ground arith

    debited :
        (b m : ℕ) (balance amount : F)
        → b ≤ exact_bound
        → m ≤ b
        → balance ≡ of_int (pos b)
        → amount ≡ of_int (pos m)
        → sub balance amount ≡ of_int (pos (b - m))
    debited b m balance amount hb hm eb em =
        let split : b ≡ b - m + m = omega (arith, hm) in
        rw (eb, em)
          (subst (λ x. sub (of_int (pos x)) (of_int (pos m)) ≡ of_int (pos (b - m))) (sym split)
            (exact.difference (b - m) m (omega (arith, hb, hm))))

    execute-SumsTo :
        (accounts : Dict (Account F)) (tenant : String) (req : TransferRequest F) (n m : ℕ)
        → Approved fl accounts tenant req
        → n ≤ exact_bound
        → m ≤ exact_bound
        → req.amount ≡ of_int (pos m)
        → SumsTo accounts n
        → SumsTo (execute fl req accounts) n
    unfolding execute
    execute-SumsTo accounts tenant req n m a hn hm em h =
        let p = lookup-Part req.from_account accounts n a.from a.from_stored h in
        let hb : p.balance ≤ exact_bound = omega (arith, p.within, hn) in
        let le = covered-le p.balance m a.from.balance req.amount hb hm p.whole em a.covered in
        let once : SumsTo (modify req.from_account (debit fl req.amount) accounts) (n - m) =
          p.write (debit fl req.amount) (p.balance - m) (n - m)
            (debited p.balance m a.from.balance req.amount hb le p.whole em)
            (omega (arith, p.within, le)) in
        elim (Option-cases
          (lookup req.to_account (modify req.from_account (debit fl req.amount) accounts))) [
            | inl missing ↦ absurd (
                ground (
                  arith,
                  lookup-modify req.from_account req.to_account (debit fl req.amount) accounts,
                  a.from_stored,
                  a.to_stored,
                ))
            | inr (to, found) ↦
                let q =
                  lookup-Part req.to_account
                    (modify req.from_account (debit fl req.amount) accounts) (n - m) to found
                    once in
                q.write (credit fl req.amount) (q.balance + m) n
                  (rw (q.whole, em)
                    (exact.sum q.balance m (omega (arith, q.within, p.within, le, hn))))
                  (omega (arith, q.within, p.within, le))
          ]

    -- In IEEE arithmetic, where requests are served one at a time, whole-number money is kept: if all
    -- balances are whole numbers with a sum of at most 2 ^ 53, and the amount, if the body decodes, is a
    -- whole number of at most 2 ^ 53, then after a call of the handler all balances are whole numbers
    -- with the same sum, also where both accounts are one.
    pub handle_transfer-SumsTo :
        (decode : Body → Option (TransferRequest F)) (at : TransferTimes) (ctx : Context)
        (r : Request) (accounts : Dict (Account F)) (n m : ℕ)
        → n ≤ exact_bound
        → m ≤ exact_bound
        → ((req : TransferRequest F) → decode r.body ≡ some req → req.amount ≡ of_int (pos m))
        → SumsTo accounts n
        → SumsTo (handle_transfer fl decode at ctx r accounts).1 n
    handle_transfer-SumsTo decode at ctx r accounts n m hn hm amount h =
        elim (handle_transfer_atomic fl decode at ctx r accounts) [
          | inl d ↦
              rw d.result
                (execute-SumsTo accounts _ d.req n m d.approved hn hm (amount d.req d.decoded) h)
          | inr q ↦ rw q.kept h
        ]
