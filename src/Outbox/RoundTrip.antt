-- ===== src/Outbox/RoundTrip.antt =====
-- What enqueue_email_delivery seals, decrypt_email_payload opens.
use fastapi_production_api.Base.{some, ◌≡◌, refl, suc, ℕ, false, nat_eq, string_eq, ◌==◌, String}
use fastapi_production_api.World.{World, EmailPayload}
use fastapi_production_api.Outbox.{new_message, decrypt_email_payload, payload_fields}

-- Where Fernet opens what it sealed and json.loads reads what json.dumps wrote, here of the dict that
-- is dumped, the message that is stored for a payload with no empty field gives the payload back.
pub decrypt_email_payload-new_message :
    (w : World) (n : ℕ) (message_type : String) (p : EmailPayload) (token_hash : String)
    (expires_at : ℕ)
    → ((k : ℕ) → w.open_payload (w.seal_payload k (payload_fields p)) ≡ some (payload_fields p))
    → (p.action_url == "") ≡ false
    → (p.recipient == "") ≡ false
    → (p.token == "") ≡ false
    → let m = new_message w n message_type p token_hash expires_at in
      decrypt_email_payload w m.encryption_version m.payload_encrypted ≡ some p
unfolding decrypt_email_payload
decrypt_email_payload-new_message w n message_type p token_hash expires_at opens url recipient
      token =
    rw (opens (suc (suc n))) (simp (url, recipient, token) refl)
