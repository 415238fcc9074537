-- ===== src/Auth/Replay.antt =====
-- A refresh that succeeds, and what a thief or the owner gets who presents the old token later.
use safe_shield.Prelude.{
  find_first-test, sym, ◌∙◌, ==_iff, ℕ, ◌*◌, ◌<◌, ◌≡◌, refl, true, false, ◌==◌, if◌then◌else◌, some,
  List, Text, text_eq_refl, is_empty, find_first, exists_in, arith,
}
use safe_shield.Prelude.Effects.{ok, err}
use safe_shield.Config.{Settings}
use safe_shield.Auth.Models.{get_db, User, RefreshToken, AuthDb, set_to, is_revoked, clashes}
use safe_shield.Auth.Security.{Library, Supply}
use safe_shield.Auth.Routes.{
  TokenResponse, logout, issue_tokens, revoke, revoke_family, by_hash, new_token,
}
use safe_shield.Auth.Rotation.{
  IsIssued, revoke_family-outside, revoke_family-IsBurnt, outside, after_refresh, refresh_live,
  refresh_reuse, refresh_revoked, reuse_error, live_of, IsBurnt,
}
use safe_shield.Auth.Kept.{run-Finds, hash_ne_of_flush, find_first-revoke, clashes-revoke}
use safe_shield.Auth.Service.{run, Call}

-- A token of the family is revoked after the update.
revoke-Dead :
    (f now : ℕ) (t : RefreshToken)
    → t.family_id ≡ f
    → is_revoked (if live_of f t then revoke now t else t) ≡ true
revoke-Dead f now t same = ground (arith, same, ==_iff t.family_id f)

module _ (s : Settings) (lib : Library) (sup : Supply) (raw user_agent : Text) (db : AuthDb)
    (t : RefreshToken) (user : User) (sent : is_empty raw ≡ false)
    (found : find_first (by_hash (lib.sha256 raw)) db.tokens ≡ some t) (live : is_revoked t ≡ false)
    (on_time : sup.now < t.expires_at)
    (owner : find_first (λ u. u.id == t.user_id) db.users ≡ some user)
    (active : user.is_active ≡ true)
    (unclashed : exists_in
        (clashes (new_token s lib sup user.id (some t.family_id) user_agent))
        db.tokens
      ≡ false) where
  refresh_exchanged :
      let out = after_refresh s lib sup raw user_agent db in
      (r : TokenResponse) × (out.0 ≡ ok r)
      × (find_first (by_hash (lib.sha256 raw)) out.1.committed.tokens ≡ some (revoke sup.now t))
      × (find_first (by_hash (lib.sha256 sup.raw_token)) out.1.committed.tokens
          ≡ some (new_token s lib sup user.id (some t.family_id) user_agent))
      × (out.1.cookie ≡ set_to sup.raw_token (s.refresh_token_ttl_days * 24 * 3600))
      × (out.1.committed.users ≡ db.users)
  unfolding issue_tokens
  refresh_exchanged =
      rw
        (
          refresh_live s lib sup raw user_agent db t user sent found live on_time owner active,
          issue_tokens,
          clashes-revoke fresh sup.now (λ v. v.id == t.id) db.tokens,
          unclashed,
        )
        (
          _,
          refl,
          rw (hash_ne_of_flush fresh (lib.sha256 raw) db.tokens t unclashed found) (
              ground (
                arith,
                find_first-revoke (lib.sha256 raw) sup.now (λ v. v.id == t.id) db.tokens t found,
              )),
          ground (arith, text_eq_refl (lib.sha256 sup.raw_token)),
          refl,
          refl,
        )
    where
      fresh : RefreshToken
      fresh = new_token s lib sup user.id (some t.family_id) user_agent

  -- A live, unexpired token of an active user is exchanged, if the id and the hash that are drawn are
  -- not in use: the request returns, the old token is stored as revoked, the token that goes out in
  -- the cookie is found under its hash, not revoked, of the same user and family and for the full
  -- lifetime, and the users are as they were.
  pub refresh_rotates :
      let out = after_refresh s lib sup raw user_agent db in
      (r : TokenResponse) × (n : RefreshToken) × (out.0 ≡ ok r)
      × (find_first (by_hash (lib.sha256 raw)) out.1.committed.tokens
          ≡ some (record t { revoked_at = some sup.now }))
      × (find_first (by_hash (lib.sha256 sup.raw_token)) out.1.committed.tokens ≡ some n)
      × IsIssued s lib sup t.user_id t.family_id n
      × (out.1.cookie ≡ set_to sup.raw_token (s.refresh_token_ttl_days * 24 * 3600))
      × (out.1.committed.users ≡ db.users)
  refresh_rotates =
      let (r, returned, old, new, cookie, users) = refresh_exchanged in
      let of_user : user.id ≡ t.user_id =
        (==_iff user.id t.user_id).0
          (find_first-test (λ u. u.id == t.user_id) db.users user owner) in
      (
        r,
        new_token s lib sup user.id (some t.family_id) user_agent,
        returned,
        old,
        new,
        record { live = refl; owner = of_user; family = refl; hashed = refl; lifetime = refl },
        cookie,
        users,
      )

  -- After an exchange and any further requests, the old token is presented again, by a thief or by
  -- its owner: the request is refused. After that and any further requests, the token it was
  -- exchanged for is refused too. The id and the hash that the exchange drew were not in use.
  pub replay_burns_successor :
      (between after : List (Supply × Text × Call)) (second third : Supply)
      → (agent_two agent_three : Text) → is_empty sup.raw_token ≡ false
      → let first = (after_refresh s lib sup raw user_agent db).1.committed in
        let replay = after_refresh s lib second raw agent_two (run s lib first between) in
        let later =
          after_refresh s lib third sup.raw_token agent_three
            (run s lib replay.1.committed after) in
        (replay.0 ≡ err reuse_error) × (later.0 ≡ err reuse_error)
  replay_burns_successor between after second third agent_two agent_three non_empty =
      let (r, ok_r, old, new, _, _) = refresh_exchanged in
      let first = (after_refresh s lib sup raw user_agent db).1.committed in
      let before = run s lib first between in
      let (o, there, (of_family, dead)) =
        run-Finds (λ v. (v.family_id ≡ t.family_id) × (is_revoked v ≡ true))
          (λ v now (e, _). (e, refl)) (lib.sha256 raw) s lib first between
          (revoke sup.now t, old, (refl, refl)) in
      let (n, here, same) =
        run-Finds (λ v. v.family_id ≡ t.family_id) (λ v now e. e) (lib.sha256 sup.raw_token) s lib
          first between (new_token s lib sup user.id (some t.family_id) user_agent, new, refl) in
      let replayed = refresh_revoked s lib second raw agent_two before o sent there dead in
      let burnt =
        find_first-revoke (lib.sha256 sup.raw_token) second.now (live_of o.family_id) before.tokens
          n here in
      let burnt_db = revoke_family o.family_id second.now before in
      let (x, last, gone) =
        run-Finds (λ v. is_revoked v ≡ true) (λ v now e. refl) (lib.sha256 sup.raw_token) s lib
          burnt_db after (_, burnt, revoke-Dead o.family_id second.now n (same ∙ sym of_family)) in
      rw replayed (
        refl,
        (refresh_reuse s lib third sup.raw_token agent_three (run s lib burnt_db after) x non_empty
            last gone).0,
      )

module _ (s : Settings) (lib : Library) (sup : Supply) (raw : Text) (db : AuthDb) (t : RefreshToken)
    (sent : is_empty raw ≡ false)
    (found : find_first (by_hash (lib.sha256 raw)) db.tokens ≡ some t) where
  abbrev pub after_logout : AuthDb
  after_logout = (get_db (logout s lib sup (some raw)) db).1.committed

  logout_found : after_logout ≡ revoke_family t.family_id sup.now db
  unfolding get_db logout
  logout_found = ground arith

  -- After a logout, no token of the family is live, and a refresh with any of them, the one that
  -- was presented or another, is refused; other families keep their tokens.
  pub logout_ends_family :
      (other : Supply) (raw₂ agent : Text) (v : RefreshToken)
      → is_empty raw₂ ≡ false
      → find_first (by_hash (lib.sha256 raw₂)) db.tokens ≡ some v
      → v.family_id ≡ t.family_id
      → IsBurnt t.family_id after_logout.tokens
        × (outside t.family_id after_logout.tokens ≡ outside t.family_id db.tokens)
        × ((after_refresh s lib other raw₂ agent after_logout).0 ≡ err reuse_error)
  logout_ends_family other raw₂ agent v sent₂ found₂ same = rw logout_found (
    revoke_family-IsBurnt t.family_id sup.now db.tokens,
    revoke_family-outside t.family_id sup.now db.tokens,
    (refresh_reuse s lib other raw₂ agent (revoke_family t.family_id sup.now db) _ sent₂
        (find_first-revoke (lib.sha256 raw₂) sup.now (live_of t.family_id) db.tokens v found₂)
        (ground (arith, same))).0,
  )
