-- ===== src/Api/Identity/Honest.antt =====
-- internal/api/v1.go: what is observed stays, and what is completed is bound one to one.
use gsm_system.Base.{
  ℕ, ◌≡◌, ◌≢◌, refl, ◌⊎◌, inl, inr, true, false, [], ◌∷◌, List, Option, none, some, All, Bool-cases,
  arith,
}
use gsm_system.Base.Text.{Text}
use gsm_system.Base.Map.{find, put-All, find-All}
use gsm_system.Subscriber.Snapshot.{Subscriber}
use gsm_system.Parser.Party.{Sms}
use gsm_system.Api.Identity.{
  is_sms_service_code, imsi_count, number_count, BindingIndex, is_one_to_one, index_entry,
  index_entries, no_bindings, new_sms_binding_index, Provenance, unknown, log_observation,
  current_binding, Party, number_found, imsi_found, resolve_sms_party, party_seen, Resolved,
  sms_identity_resolution,
}

-- One of the entries.
abbrev pub Among : Subscriber → List Subscriber → Type 0
Among s [] = ⊥
Among s (t ∷ l) = (t ≡ s) ⊎ Among s l

-- The registry binds the number to the IMSI, consistently, and neither of them a second time.
pub record Binds (registered : List Subscriber) (number imsi : Text) : Type 0 where
  pub entry : Subscriber
  pub among : Among entry registered
  pub imsi_of : entry.imsi ≡ imsi
  pub number_of : entry.number ≡ some number
  pub is_consistent : entry.consistent ≡ true
  pub imsi_once : imsi_count imsi registered ≡ 1
  pub number_once : number_count number registered ≡ 1
  pub no_service : is_sms_service_code number ≡ false

module _ (registered : List Subscriber) where
  abbrev IsSound : BindingIndex → Type 0
  IsSound index =
      All (λ e. Binds registered e.1 e.0) index.by_imsi
      × All (λ e. Binds registered e.0 e.1) index.by_number

  one_to_one-Binds :
      (s : Subscriber) (n : Text)
      → Among s registered
      → s.number ≡ some n
      → is_one_to_one registered s n ≡ true
      → Binds registered n s.imsi
  one_to_one-Binds s n a e h = record {
    entry = s;
    among = a;
    imsi_of = refl;
    number_of = e;
    is_consistent = ground arith;
    imsi_once = ground arith;
    number_once = ground arith;
    no_service = ground arith;
  }

  index_entry-IsSound :
      (s : Subscriber) (o : Option Text) (index : BindingIndex)
      → Among s registered
      → s.number ≡ o
      → IsSound index
      → IsSound (index_entry registered s o index)
  index_entry-IsSound s none index a e h = h
  index_entry-IsSound s (some n) index a e h = elim (Bool-cases (is_one_to_one registered s n)) [
    | inl good ↦ rw good (
      put-All (λ e. Binds registered e.1 e.0) s.imsi n index.by_imsi (one_to_one-Binds s n a e good)
          h.0,
      put-All (λ e. Binds registered e.0 e.1) n s.imsi index.by_number
          (one_to_one-Binds s n a e good) h.1,
    )
    | inr bad ↦ rw bad h
  ]

  index_entries-IsSound :
      (l : List Subscriber) (index : BindingIndex)
      → ((s : Subscriber) → Among s l → Among s registered)
      → IsSound index
      → IsSound (index_entries registered l index)
  unfolding index_entries
  index_entries-IsSound [] index a h = h
  index_entries-IsSound (s ∷ l) index a h =
      index_entries-IsSound l (index_entry registered s s.number index) (λ t m. a t (inr m))
        (index_entry-IsSound s s.number index (a s (inl refl)) refl h)

  new_sms_binding_index-IsSound : IsSound (new_sms_binding_index registered)
  unfolding new_sms_binding_index
  new_sms_binding_index-IsSound = index_entries-IsSound registered no_bindings (λ s m. m) (tt, tt)

  -- What the answer says of one identity: nothing is known, it is the log's, or the log has none
  -- and the registry completes it.
  abbrev IsHonest : Provenance → Text → Text → Text → Text → Type 0
  IsHonest unknown seen shown number imsi = (seen ≡ []) × (shown ≡ [])
  IsHonest log_observation seen shown number imsi = (seen ≢ []) × (shown ≡ seen)
  IsHonest current_binding seen shown number imsi = (seen ≡ []) × Binds registered number imsi

  abbrev pub PartyIsHonest : Text → Text → Party → Type 0
  PartyIsHonest number imsi p =
      IsHonest p.number_from number p.number p.number p.imsi
      × IsHonest p.imsi_from imsi p.imsi p.number p.imsi

  cons-ne_nil : (c : ℕ) (s : Text) → ◌≢◌ {A = Text} (c ∷ s) []
  cons-ne_nil c s e = cc

  by_imsi-IsHonest :
      (c : ℕ) (imsi : Text) (index : BindingIndex) (o : Option Text)
      → IsSound index
      → find (c ∷ imsi) index.by_imsi ≡ o
      → PartyIsHonest [] (c ∷ imsi) (number_found o (party_seen [] (c ∷ imsi)))
  by_imsi-IsHonest c imsi index none h e = ((refl, refl), (cons-ne_nil c imsi, refl))
  by_imsi-IsHonest c imsi index (some n) h e = (
    (refl, find-All (λ x. Binds registered x.1 x.0) (c ∷ imsi) index.by_imsi h.0 e),
    (cons-ne_nil c imsi, refl),
  )

  by_number-IsHonest :
      (c : ℕ) (number : Text) (index : BindingIndex) (o : Option Text)
      → IsSound index
      → find (c ∷ number) index.by_number ≡ o
      → PartyIsHonest (c ∷ number) [] (imsi_found o (party_seen (c ∷ number) []))
  by_number-IsHonest c number index none h e = ((cons-ne_nil c number, refl), (refl, refl))
  by_number-IsHonest c number index (some i) h e = (
    (cons-ne_nil c number, refl),
    (refl, find-All (λ x. Binds registered x.0 x.1) (c ∷ number) index.by_number h.1 e),
  )

  resolve_sms_party-IsHonest :
      (number imsi : Text) (index : BindingIndex)
      → IsSound index
      → PartyIsHonest number imsi (resolve_sms_party index (party_seen number imsi))
  unfolding resolve_sms_party
  resolve_sms_party-IsHonest [] [] index h = ((refl, refl), (refl, refl))
  resolve_sms_party-IsHonest [] (c ∷ imsi) index h =
      by_imsi-IsHonest c imsi index (find (c ∷ imsi) index.by_imsi) h refl
  resolve_sms_party-IsHonest (c ∷ number) [] index h =
      elim (Bool-cases (is_sms_service_code (c ∷ number))) [
        | inl service ↦ rw service ((cons-ne_nil c number, refl), (refl, refl))
        | inr other ↦
            rw other (by_number-IsHonest c number index (find (c ∷ number) index.by_number) h refl)
      ]
  resolve_sms_party-IsHonest (c ∷ number) (d ∷ imsi) index h =
      ((cons-ne_nil c number, refl), (cons-ne_nil d imsi, refl))

  abbrev pub Shows : Resolved → Type 0
  Shows r =
      (r.message.sender_number ≡ r.sender.number)
      × (r.message.sender_imsi ≡ r.sender.imsi)
      × (r.message.receiver_number ≡ r.receiver.number)
      × (r.message.receiver_imsi ≡ r.receiver.imsi)

  abbrev pub AnswersHonestly : Sms → Resolved → Type 0
  AnswersHonestly m r =
      PartyIsHonest m.sender_number m.sender_imsi r.sender
      × PartyIsHonest m.receiver_number m.receiver_imsi r.receiver
      × Shows r
      × (r.message.time ≡ m.time)
      × (r.message.text ≡ m.text)

  -- Whatever the registry and the message hold: an identity that the log shows is answered as it
  -- is and marked as observed; one that the log lacks is answered as missing and marked as
  -- unknown, or marked as a current binding, and then the registry consistently binds the answered
  -- number, which is no service number, to the answered IMSI, and holds neither a second time. The
  -- time and the text stay as they are.
  pub sms_identity_resolution-IsHonest :
      (m : Sms) → AnswersHonestly m (sms_identity_resolution m (new_sms_binding_index registered))
  unfolding sms_identity_resolution
  sms_identity_resolution-IsHonest m = (
    resolve_sms_party-IsHonest m.sender_number m.sender_imsi (new_sms_binding_index registered)
        new_sms_binding_index-IsSound,
    resolve_sms_party-IsHonest m.receiver_number m.receiver_imsi (new_sms_binding_index registered)
        new_sms_binding_index-IsSound,
    (refl, refl, refl, refl),
    refl,
    refl,
  )
