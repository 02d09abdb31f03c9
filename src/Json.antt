-- ===== src/Json.antt =====
-- Values of the JSON documents that exchanges answer with, as Python's `json` hands them over
-- (backend/app/services/testnet_order_persistence.py, `_safe_value`).
use crypto_copy_trading_plat.Prelude.{Bool}
use crypto_copy_trading_plat.Prelude.Int.{ℤ}
use crypto_copy_trading_plat.Prelude.Text.{Text}

-- A float and a `Decimal` are carried as the text that `str` prints, and any other object too.
mutual
  pub data Json : Type 0 where
    null : Json
    boolean : Bool → Json
    int : ℤ → Json
    float : Text → Json
    text : Text → Json
    decimal : Text → Json
    foreign : Text → Json
    array : Items → Json
    object : Fields → Json

  pub data Items : Type 0 where
    nil : Items
    cons : Json → Items → Items

  pub data Fields : Type 0 where
    end : Fields
    field : Text → Json → Fields → Fields
