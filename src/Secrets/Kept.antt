-- ===== src/Secrets/Kept.antt =====
-- What an encryption keeps: whatever the passing of a call keeps.
use release_hub.Base.{suc, Option, none, some}
use release_hub.World.{World, Outside, Response, Bytes}
use release_hub.World.Calls.{Keeps, Keeps-pure, Keeps-bind, Keeps-call, Keeps-if}
use release_hub.Secrets.{encrypt_with, encrypt_creds, load_secret_key}

module _ {P : World → Type 0} {E : Response → World → Type 0} (x : Outside)
    (ticked : (w : World) → P w → P (record w { tick = suc w.tick })) where
  Keeps-encrypt_with : (key : Option Bytes) (plain : Bytes) → Keeps P P E (encrypt_with x key plain)
  unfolding encrypt_with
  Keeps-encrypt_with none plain = Keeps-if _ _ _ (Keeps-pure _) (Keeps-pure _)
  Keeps-encrypt_with (some key) plain =
      Keeps-bind _ _ (Keeps-call _ ticked ticked) λ nonce. Keeps-pure _

  pub Keeps-encrypt_creds : (plain : Bytes) → Keeps P P E (encrypt_creds x plain)
  unfolding encrypt_creds
  Keeps-encrypt_creds plain = Keeps-encrypt_with (load_secret_key x) plain
