-- ===== src/GiftCards/Tests.antt =====
-- A gift card at a run: issued with 500 rupees, and redeemed twice in one settlement.
use stello_kitchens.Prelude.{◌≡◌, refl, false, List, [], ◌∷◌, none, some}
use stello_kitchens.Prelude.Rounding.{round_div}
use stello_kitchens.Prelude.Texts.{Text, same_text, text_lt, is_space}
use stello_kitchens.Service.{AuthUser, Result, ok, err}
use stello_kitchens.GiftCards.{
  Vault, CardPayment, Redemption, find_code, update_card, charge, redeem_code, redeem_codes,
  redeem_gift_cards, add_code, insert_code, sort_codes, by_code, normalise_gift_code, add_card,
  pay_into, issue,
}
use stello_kitchens.GiftCards.Ledger.{IsSound}
use stello_kitchens.GiftCards.Laws.{here, next, issuing, redeeming, Reach-IsSound}

abbrev as_is : Text → Text
as_is t = t

abbrev no_cards : Vault
no_cards = record {
  cards = [];
  txns = [];
  sessions = [];
  movements = [];
  audit_log = [];
  next_id = 1;
}

abbrev cashier : AuthUser
cashier = record { id = 9; tenant_id = 1; outlet_ids = 1 ∷ [] }

abbrev code : Text
code = b'G' ∷ (b'C' ∷ (b'7' ∷ []))

abbrev vault_of : Result Vault → Vault
vault_of (ok v) = v
vault_of (err e) = no_cards

abbrev sold : Vault
sold = vault_of (issue cashier 1 100 code 50_000 none false no_cards)

sells : issue cashier 1 100 code 50_000 none false no_cards ≡ ok sold
unfolding issue add_card find_code pay_into
sells = refl

abbrev bill : Redemption
bill = record { outlet_id = 1; order_id = 77; user_id = some 9 }

-- 120 and 80 rupees, the second with its code as printed.
abbrev payments : List CardPayment
payments =
    record { code = code; amount = 1_200_000 }
    ∷ (record { code = b'G' ∷ (b'C' ∷ (b'-' ∷ (b'7' ∷ []))); amount = 800_000 } ∷ [])

abbrev used : Vault
used = vault_of (redeem_gift_cards as_is 100 bill payments sold)

pays : redeem_gift_cards as_is 100 bill payments sold ≡ ok used
unfolding redeem_gift_cards by_code add_code normalise_gift_code is_space same_text sort_codes
    insert_code text_lt redeem_codes redeem_code find_code charge update_card round_div issue
    add_card
pays = refl

no_cards-IsSound : IsSound no_cards
no_cards-IsSound = record { balanced = tt; card_ids = tt; txn_ids = tt }

Reach-IsSound_example : IsSound used
Reach-IsSound_example = Reach-IsSound {upper = as_is} no_cards-IsSound (
    next (next here (issuing cashier 1 100 code 50_000 none false sells))
      (redeeming 100 bill payments pays))
