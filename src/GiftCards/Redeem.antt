-- ===== src/GiftCards/Redeem.antt =====
-- What a redemption takes, and which cards it takes it from.
use stello_kitchens.Prelude.{
  ℕ, ◌+◌, ◌-◌, ◌==◌, ◌≤◌, ◌≡◌, ◌≢◌, ◌∙◌, sym, ◌⊎◌, inl, inr, refl, ap, false, List, [], ◌∷◌, ◌++◌,
  some, arith, All, Bool-cases, Option-cases, ==_iff, sum_by,
}
use stello_kitchens.Prelude.Int.{neg_part}
use stello_kitchens.Prelude.Rounding.{round_div}
use stello_kitchens.Prelude.Texts.{Text, same_text, same_text-eq, text_lt}
use stello_kitchens.Money.{paisa}
use stello_kitchens.Service.{ok, Result-cases}
use stello_kitchens.GiftCards.{
  GiftCard, GiftCardTxn, CardStatus, Vault, CodeAmount, Redemption, CardPayment, find_code,
  update_card, with_balance, charge, redeem_code, redeem_codes, redeem_gift_cards, add_code,
  insert_code, sort_codes, by_code, normalise_gift_code, is_expired,
}
use stello_kitchens.GiftCards.Ledger.{IsSound, Balances, credits, debits, find_code-All}
use stello_kitchens.GiftCards.Laws.{redeem_code-IsSound}

-- All that was ever taken off the cards.
abbrev pub spent : List GiftCardTxn → ℕ
spent = sum_by (λ t. neg_part t.amount)

abbrev pub paise_of : List CodeAmount → ℕ
paise_of = sum_by (λ e. e.paise)

abbrev pub asked : List CardPayment → ℕ
asked = sum_by (λ p. round_div p.amount paisa)

spent-append :
    (ts : List GiftCardTxn) (t : GiftCardTxn)
    → spent (ts ++ (t ∷ [])) ≡ spent ts + neg_part t.amount
spent-append [] t = omega arith
spent-append (s ∷ ts) t = omega (arith, spent-append ts t)

paise_of-add_code :
    (code : Text) (p : ℕ) (es : List CodeAmount) → paise_of (add_code code p es) ≡ paise_of es + p
unfolding add_code
paise_of-add_code code p [] = omega arith
paise_of-add_code code p (e ∷ es) = ground (arith, paise_of-add_code code p es)

paise_of-insert_code :
    (e : CodeAmount) (es : List CodeAmount) → paise_of (insert_code e es) ≡ e.paise + paise_of es
unfolding insert_code
paise_of-insert_code e [] = omega arith
paise_of-insert_code e (x ∷ xs) = ground (arith, paise_of-insert_code e xs)

paise_of-sort_codes : (es : List CodeAmount) → paise_of (sort_codes es) ≡ paise_of es
unfolding sort_codes
paise_of-sort_codes [] = refl
paise_of-sort_codes (e ∷ es) =
    omega (arith, paise_of-sort_codes es, paise_of-insert_code e (sort_codes es))

spent-charge :
    (r : Redemption) (card : GiftCard) (amount : ℕ) (v : Vault)
    → spent (charge r card amount v).txns ≡ spent v.txns + amount
unfolding charge
spent-charge r card amount v = grind (arith, spent-append)

-- A card that can pay an amount.
abbrev pub CanPay : ℕ → List GiftCard → Text → ℕ → Type 0
CanPay today cards code paise =
    (c : GiftCard) × (find_code code cards ≡ some c)
    × (c.status ≡ CardStatus.active)
    × (is_expired today c.expires_on ≡ false)
    × (paise ≤ c.balance)

redeem_code-eq-ok :
    (today : ℕ) (r : Redemption) (e : CodeAmount) (v : Vault) {after : Vault}
    → redeem_code today r e v ≡ ok after
    → (c : GiftCard) × (find_code e.code v.cards ≡ some c)
      × (c.status ≡ CardStatus.active)
      × (is_expired today c.expires_on ≡ false)
      × (e.paise ≤ c.balance)
      × (after ≡ charge r c e.paise v)
unfolding redeem_code
redeem_code-eq-ok today r e v {after} h = elim (Option-cases (find_code e.code v.cards)) [
  | inl missing ↦ absurd (ground arith)
  | inr (c, found) ↦ (c, found, ground arith, ground arith, ground arith, ground arith)
]

spent-redeem_codes :
    (today : ℕ) (r : Redemption) (es : List CodeAmount) (v : Vault) {after : Vault}
    → redeem_codes today r es v ≡ ok after
    → spent after.txns ≡ spent v.txns + paise_of es
unfolding redeem_codes
spent-redeem_codes today r [] v h = ground arith
spent-redeem_codes today r (e ∷ es) v {after} h = elim (Result-cases (redeem_code today r e v)) [
  | inl (x, refused) ↦ absurd (ground arith)
  | inr (next, done) ↦
      let (c, found, a, b, d, made) = redeem_code-eq-ok today r e v {after = next} done in
      let rest = spent-redeem_codes today r es next {after = after} (ground arith) in
      omega (arith, rest, ap (λ w. spent w.txns) made, spent-charge r c e.paise v)
]

-- Looking a code up behind a payment finds the same card, with no more on it than before.
find_code-update_card :
    (code : Text) (id b : ℕ) (cs : List GiftCard) {c : GiftCard}
    → All (λ x. (x.id ≢ id) ⊎ (b ≤ x.balance)) cs
    → find_code code (update_card id (with_balance b) cs) ≡ some c
    → (o : GiftCard) × (find_code code cs ≡ some o)
      × (o.status ≡ c.status)
      × (o.expires_on ≡ c.expires_on)
      × (c.balance ≤ o.balance)
unfolding find_code update_card
find_code-update_card code id b [] h e = absurd (cc)
find_code-update_card code id b (x ∷ cs) {c} (p, ps) e = elim (Bool-cases (same_text x.code code)) [
  | inl here ↦ (x, ground arith, ground arith, ground arith, ground (arith, ==_iff x.id id))
  | inr there ↦
      let (o, found, s, d, l) = find_code-update_card code id b cs {c = c} ps (ground arith) in
      (o, ground arith, s, d, l)
]

charge_lowers :
    (txns : List GiftCardTxn) (card : GiftCard) (amount : ℕ) (cs : List GiftCard)
    → Balances txns card
    → All (Balances txns) cs
    → All (λ x. (x.id ≢ card.id) ⊎ (card.balance - amount ≤ x.balance)) cs
charge_lowers txns card amount [] own h = tt
charge_lowers txns card amount (x ∷ cs) own (b, bs) = (
  elim (Bool-cases (x.id == card.id)) [
    | inl same ↦
        let e = (==_iff x.id card.id).0 same in
        inr (omega (arith, ap (λ i. credits i txns) e, ap (λ i. debits i txns) e))
    | inr other ↦ inl (λ e. ground (arith, ==_iff x.id card.id))
  ],
  charge_lowers txns card amount cs own bs,
)

CanPay-before :
    (today : ℕ) (r : Redemption) (e : CodeAmount) (v : Vault) (code : Text) (paise : ℕ)
    {next : Vault}
    → IsSound v
    → redeem_code today r e v ≡ ok next
    → CanPay today next.cards code paise
    → CanPay today v.cards code paise
unfolding charge
CanPay-before today r e v code paise {next} sound done (c, found, active, fresh, enough) =
    let (card, at, a, b, d, made) = redeem_code-eq-ok today r e v {after = next} done in
    let own = find_code-All (Balances v.txns) e.code v.cards {c = card} sound.balanced at in
    let lower = charge_lowers v.txns card e.paise v.cards own sound.balanced in
    let cards = ap (λ w. w.cards) made in
    let (o, there, s, x, l) =
      find_code-update_card code card.id (card.balance - e.paise) v.cards {c = c} lower
        (ap (find_code code) (sym cards) ∙ found) in
    (o, there, s ∙ active, ap (is_expired today) x ∙ fresh, omega arith)

abbrev pub EntryCanPay : ℕ → List GiftCard → CodeAmount → Type 0
EntryCanPay today cards e = CanPay today cards e.code e.paise

All-CanPay-before :
    (today : ℕ) (r : Redemption) (e : CodeAmount) (v : Vault) (es : List CodeAmount) {next : Vault}
    → IsSound v
    → redeem_code today r e v ≡ ok next
    → All (EntryCanPay today next.cards) es
    → All (EntryCanPay today v.cards) es
All-CanPay-before today r e v [] sound done h = tt
All-CanPay-before today r e v (x ∷ xs) {next} sound done (p, ps) = (
  CanPay-before today r e v x.code x.paise {next = next} sound done p,
  All-CanPay-before today r e v xs {next = next} sound done ps,
)

redeem_codes-CanPay :
    (today : ℕ) (r : Redemption) (es : List CodeAmount) (v : Vault) {after : Vault}
    → IsSound v
    → redeem_codes today r es v ≡ ok after
    → All (EntryCanPay today v.cards) es
unfolding redeem_codes
redeem_codes-CanPay today r [] v sound h = tt
redeem_codes-CanPay today r (e ∷ es) v {after} sound h =
    elim (Result-cases (redeem_code today r e v)) [
      | inl (x, refused) ↦ absurd (ground arith)
      | inr (next, done) ↦
          let (c, found, a, b, d, made) = redeem_code-eq-ok today r e v {after = next} done in
          let rest =
            redeem_codes-CanPay today r es next {after = after}
              (redeem_code-IsSound today r e v {after = next} sound done) (ground arith) in
          ((c, found, a, b, d), All-CanPay-before today r e v es {next = next} sound done rest)
    ]

All-insert_code :
    (P : CodeAmount → Type 0) (e : CodeAmount) (es : List CodeAmount)
    → All P (insert_code e es)
    → P e × All P es
unfolding insert_code
All-insert_code P e [] h = h
All-insert_code P e (x ∷ xs) h = elim (Bool-cases (text_lt x.code e.code)) [
  | inl later ↦
      let h' : P x × All P (insert_code e xs) = simp later at h in
      let (q, qs) = All-insert_code P e xs h'.1 in (q, (h'.0, qs))
  | inr first ↦ let h' : P e × (P x × All P xs) = simp first at h in h'
]

All-sort_codes : (P : CodeAmount → Type 0) (es : List CodeAmount) → All P (sort_codes es) → All P es
unfolding sort_codes
All-sort_codes P [] h = tt
All-sort_codes P (e ∷ es) h =
    let (p, ps) = All-insert_code P e (sort_codes es) h in (p, All-sort_codes P es ps)

add_code-CanPay :
    (today : ℕ) (cards : List GiftCard) (code : Text) (p : ℕ) (es : List CodeAmount)
    → All (EntryCanPay today cards) (add_code code p es)
    → CanPay today cards code p × All (EntryCanPay today cards) es
unfolding add_code
add_code-CanPay today cards code p [] h = h
add_code-CanPay today cards code p (e ∷ es) h = elim (Bool-cases (same_text e.code code)) [
  | inl same ↦
      let h' : CanPay today cards e.code (e.paise + p) × All (EntryCanPay today cards) es =
        simp same at h in
      let (c, found, a, b, enough) = h'.0 in
      (
        (
          c,
          ap (λ t. find_code t cards) (sym (same_text-eq e.code code same)) ∙ found,
          a,
          b,
          omega arith,
        ),
        ((c, found, a, b, omega arith), h'.1),
      )
  | inr other ↦
      let h' : CanPay today cards e.code e.paise
          × All (EntryCanPay today cards) (add_code code p es) =
        simp other at h in
      let (q, qs) = add_code-CanPay today cards code p es h'.1 in (q, (h'.0, qs))
]

module _ (upper : Text → Text) where
  paise_of-by_code :
      (ps : List CardPayment) (es : List CodeAmount)
      → paise_of (by_code upper ps es) ≡ paise_of es + asked ps
  unfolding by_code
  paise_of-by_code [] es = omega arith
  paise_of-by_code (p ∷ ps) es =
      let code = normalise_gift_code upper p.code in
      let paise = round_div p.amount paisa in
      omega (arith, paise_of-by_code ps (add_code code paise es), paise_of-add_code code paise es)

  by_code-CanPay :
      (today : ℕ) (cards : List GiftCard) (ps : List CardPayment) (es : List CodeAmount)
      → All (EntryCanPay today cards) (by_code upper ps es)
      → All
          (λ p. CanPay today cards (normalise_gift_code upper p.code) (round_div p.amount paisa))
          ps
        × All (EntryCanPay today cards) es
  unfolding by_code
  by_code-CanPay today cards [] es h = (tt, h)
  by_code-CanPay today cards (p ∷ ps) es h =
      let code = normalise_gift_code upper p.code in
      let paise = round_div p.amount paisa in
      let (rest, more) = by_code-CanPay today cards ps (add_code code paise es) h in
      let (q, qs) = add_code-CanPay today cards code paise es more in ((q, rest), qs)

  -- A redemption that succeeds takes exactly what the payments ask for, in paise, and each payment's
  -- card was there, active, not expired and with enough on it.
  pub redeem_gift_cards-spent :
      (today : ℕ) (r : Redemption) (payments : List CardPayment) (v : Vault) {after : Vault}
      → IsSound v
      → redeem_gift_cards upper today r payments v ≡ ok after
      → (spent after.txns ≡ spent v.txns + asked payments)
        × All
            (λ p.
              CanPay today v.cards (normalise_gift_code upper p.code) (round_div p.amount paisa))
            payments
  unfolding redeem_gift_cards
  redeem_gift_cards-spent today r payments v {after} sound h =
      let codes = by_code upper payments [] in
      (
        omega (
          arith,
          spent-redeem_codes today r (sort_codes codes) v {after = after} h,
          paise_of-sort_codes codes,
          paise_of-by_code payments [],
        ),
        (by_code-CanPay today v.cards payments [] (
            All-sort_codes (EntryCanPay today v.cards) codes
              (redeem_codes-CanPay today r (sort_codes codes) v {after = after} sound h))).0,
      )
