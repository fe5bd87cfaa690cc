-- ===== src/Orders/Settle/Tenders.antt =====
-- What a settlement takes: from the gift cards, and from the points and codes of the customer.
use mathlib.Core.Path.{subst}
use stello_kitchens.Prelude.{
  ℕ, ◌+◌, ◌≡◌, refl, ap, sym, ◌∙◌, inl, inr, Option, some, All, Bool-cases, ltb,
}
use stello_kitchens.Prelude.Rounding.{round_div}
use stello_kitchens.Prelude.Texts.{Text}
use stello_kitchens.Money.{paisa}
use stello_kitchens.Orders.Rows.{OrderRow, AuthUser, ok}
use stello_kitchens.GiftCards.{Vault, MovementType, normalise_gift_code}
use stello_kitchens.GiftCards.Ledger.{IsSound}
use stello_kitchens.GiftCards.Laws.{
  here, next, redeeming, Reach-IsSound, pay_into-keeps, carry-IsSound,
}
use stello_kitchens.GiftCards.Redeem.{CanPay, spent, asked, redeem_gift_cards-spent}
use stello_kitchens.Orders.Settle.{
  SettleInput, Shop, Seen, Clock, cash_taken, card_payments, drawer_of, redemption_of, settle,
}
use stello_kitchens.Orders.Settle.Steps.{settle-all}

-- The drawer is apart from the cards.
drawer_of-keeps :
    (input : SettleInput) (order : OrderRow) (v : Vault)
    → let w = drawer_of input order v in
      (v.cards ≡ w.cards) × (v.txns ≡ w.txns) × (v.next_id ≡ w.next_id)
drawer_of-keeps input order v =
    let taken = cash_taken input.payments in
    elim (Bool-cases (ltb 0 taken)) [
      | inl cash ↦ rw cash (
          pay_into-keeps order.outlet_id MovementType.sale (round_div taken paisa) (some order.id)
            v)
      | inr unpaid ↦ rw unpaid (refl, refl, refl)
    ]

module _ (upper trim : Text → Text) (get_time : Text → Option ℕ) where
  -- A settlement that succeeds takes from the gift cards exactly what its card payments ask for, from
  -- cards that were there, active, not expired and good for it, and leaves their ledger sound.
  pub settle-cards :
      (user : AuthUser) (id : ℕ) (input : SettleInput) (clock : Clock) (seen : Seen) (s : Shop)
      {after : Shop}
      → IsSound s.vault
      → settle upper trim get_time user id input clock seen s ≡ ok after
      → IsSound after.vault
        × (spent after.vault.txns ≡ spent s.vault.txns + asked (card_payments input.payments))
        × All
            (λ p.
              CanPay clock.day s.vault.cards
                (normalise_gift_code upper p.code)
                (round_div p.amount paisa))
            (card_payments input.payments)
  settle-cards user id input clock seen s {after} sound h =
      let all = settle-all upper trim get_time user id input clock seen s {after = after} h in
      let opened = all.opened in
      let b = opened.b in
      let paid = all.paid in
      let done = all.done in
      let payments = card_payments input.payments in
      let (taken, able) =
        redeem_gift_cards-spent upper clock.day (redemption_of user b.order) payments s.vault
          {after = paid.cards} sound paid.charged in
      let charged =
        Reach-IsSound {upper = upper} sound
          (next here (redeeming clock.day (redemption_of user b.order) payments paid.charged)) in
      let (cards, txns, ids) = drawer_of-keeps input b.order paid.cards in
      let kept =
        carry-IsSound paid.cards (drawer_of input b.order paid.cards) cards txns ids charged in
      (
        subst IsSound (sym (ap (λ w. w.vault) done.result)) kept,
        ap spent (ap (λ w. w.vault.txns) done.result ∙ sym txns) ∙ taken,
        able,
      )
