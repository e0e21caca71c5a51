-- ===== src/Gsm/Manager/Overlay.antt =====
-- The saved profile comes back whole, and filling from it only touches empty fields.
use gsm_system.Base.{Bool, ◌≡◌, refl, ap, true, false, [], ◌∷◌, Option, none, some}
use gsm_system.Base.Text.{Text, eqb}
use gsm_system.Base.Json.{fold_name, as_string}
use gsm_system.Base.Json.Read.{as_read}
use gsm_system.Gsm.Params.{StartParams}
use gsm_system.Gsm.Presets.Codec.{params_json, params_member}
use gsm_system.Gsm.Presets.Codec.RoundTrip.{IsUtf8Params, as_read-params_json}
use gsm_system.Gsm.Manager.Profile.{
  ProfileFile, holds, SaveFault, save_profile, unmarshal_members, unmarshal, lacks_required,
  load_profile, or_else, fill, overlay_profile, fill_from,
}

unmarshal-params_json : (p : StartParams) → unmarshal (params_json p) ≡ some p
unfolding unmarshal unmarshal_members params_json params_member fold_name as_string eqb
unmarshal-params_json p = refl

loads :
    (p : StartParams)
    → IsUtf8Params p
    → lacks_required p ≡ false
    → load_profile (holds (as_read (params_json p))) ≡ some p
unfolding load_profile
loads p u h = rw (as_read-params_json p u) (rw (unmarshal-params_json p) (rw h refl))

-- What the save of `p` over `f` leaves and reports, by the call that fails.
abbrev pub Saved : Option SaveFault → StartParams → ProfileFile → ProfileFile × Bool → Type 0
Saved none p f (f', ok) = (ok ≡ true) × (load_profile f' ≡ some p)
Saved (some SaveFault.syncing_directory) p f (f', ok) = (ok ≡ false) × (load_profile f' ≡ some p)
Saved (some SaveFault.creating) p f (f', ok) = (ok ≡ false) × (f' ≡ f)
Saved (some SaveFault.writing) p f (f', ok) = (ok ≡ false) × (f' ≡ f)
Saved (some SaveFault.renaming) p f (f', ok) = (ok ≡ false) × (f' ≡ f)

-- Of a profile with the four required fields whose texts are UTF-8: a save without a fault reports
-- success, and one in which only making the rename durable fails reports an error, and both leave
-- a file that is loaded as exactly that profile; a save in which creating, writing or renaming
-- fails reports an error and leaves the file as it was.
pub load_profile-save_profile :
    (fault : Option SaveFault) (p : StartParams) (f : ProfileFile)
    → lacks_required p ≡ false
    → IsUtf8Params p
    → Saved fault p f (save_profile fault p f)
unfolding save_profile
load_profile-save_profile none p f h u = (refl, loads p u h)
load_profile-save_profile (some SaveFault.syncing_directory) p f h u = (refl, loads p u h)
load_profile-save_profile (some SaveFault.creating) p f h u = (refl, refl)
load_profile-save_profile (some SaveFault.writing) p f h u = (refl, refl)
load_profile-save_profile (some SaveFault.renaming) p f h u = (refl, refl)

or_else_twice : (given saved : Text) → or_else (or_else given saved) saved ≡ or_else given saved
or_else_twice [] [] = refl
or_else_twice [] (c ∷ t) = refl
or_else_twice (c ∷ t) saved = refl

fill_twice : (p saved : StartParams) → fill (fill p saved) saved ≡ fill p saved
fill_twice p saved =
    rw
      (
        or_else_twice p.arfcns saved.arfcns,
        or_else_twice p.c0 saved.c0,
        or_else_twice p.band saved.band,
        or_else_twice p.mcc saved.mcc,
        or_else_twice p.mnc saved.mnc,
        or_else_twice p.lac saved.lac,
        or_else_twice p.ci saved.ci,
        or_else_twice p.short_name saved.short_name,
        or_else_twice p.network saved.network,
      )
      refl

-- Filling from any profile file a second time changes nothing and reports the same.
overlay_profile_twice :
    (f : ProfileFile) (p : StartParams)
    → (overlay_profile f (overlay_profile f p).0) ≡ overlay_profile f p
unfolding overlay_profile
overlay_profile_twice f p = by_saved (load_profile f)
  where
    by_saved : (s : Option StartParams) → fill_from (fill_from p s).0 s ≡ fill_from p s
    by_saved none = refl
    by_saved (some saved) = ap (λ q. (q, true)) (fill_twice p saved)
