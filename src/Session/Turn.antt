-- ===== src/Session/Turn.antt =====
-- A player's packet, from the card it names to the report of the turn: the session stays sound.
use pega_s.Prelude.{
  ℕ, zero, suc, ◌≡◌, refl, sym, ap, subst, ◌∙◌, true, not, some, List, [], ◌∷◌, ℤ, pos, load,
  Returns, Keeps, keeps_some, keeps_bind, keeps_if, inl, inr,
}
use pega_s.Player.{Player, is_player}
use pega_s.Game.{State, Game}
use pega_s.Game.Place.{place_card}
use pega_s.Game.Frame.{core, SamePlayers, Framed, Framed-trans, Framed-same, place_card-Framed}
use pega_s.Session.{Session, get_index_by_id}
use pega_s.SessionBus.{UserMessage}
use pega_s.Session.Move.{
  start_move, play_cards, with_game, clear_absent, is_waiting, all_chosen, Moved, start_move-Moved,
}
use pega_s.Session.Sound.{QueueOk, HasHand, Sound, Sound-queue, Sent}
use pega_s.Session.Report.{Sound-updated, Reported, phase_after, handle_result_of_play-Reported}
use pega_s.Session.Play.{play_card}
use pega_s.Session.Choose.{Chosen, game_handle_info_return-Chosen}

-- A start of a move changes nothing but the game and the players.
abbrev pub Plays : Session → ℤ × Session → Type 0
Plays s (code, s') =
    Framed s.game s.players s'.game s'.players
    × (s' ≡ record s { game = s'.game; players = s'.players })

stays : (s : Session) → Plays s (pos 0, s)
stays s = (Framed-same s.players refl (refl, refl, refl, refl), refl)

pub start_move-Plays : (s : Session) → Keeps (start_move s) (Plays s)
unfolding start_move play_cards
start_move-Plays s =
    let P = Plays s in
    keeps_if P (not (is_waiting s.game.game_state)) _ _ (λ _. keeps_some P (pos 0, s) (stays s))
      (λ _.
        keeps_if P (all_chosen s) _ _
          (λ _.
            keeps_bind P (clear_absent s.players s.game.card_ready_to_place s.max_clients 0) _
              (λ ready _.
                let g = record s.game { game_state = State.playing; card_ready_to_place = ready } in
                keeps_bind P (place_card g s.players s.max_clients) _ (λ (code, g', ps') e.
                  let f = place_card-Framed g s.players s.max_clients (code, g', ps') e in
                  keeps_some P (with_game s (code, g', ps'))
                    (Framed-trans (Framed-same s.players refl (refl, refl, refl, refl)) f, refl))))
          (λ _. keeps_some P (pos 0, s) (stays s)))

pub same_player :
    (ps ps' : List Player) (i : ℕ) (p' : Player)
    → SamePlayers ps ps'
    → load ps' i ≡ some p'
    → (p : Player) × (load ps i ≡ some p) × (core p ≡ core p')
same_player [] [] i p' e h = absurd (cc)
same_player [] (q' ∷ ps') i p' e h = absurd (cc)
same_player (q ∷ ps) [] i p' e h = absurd (cc)
same_player (q ∷ ps) (q' ∷ ps') zero p' e h = (q, refl, cc)
same_player (q ∷ ps) (q' ∷ ps') (suc i) p' e h = same_player ps ps' i p' (cc) h

HasHand-core :
    (g g' : Game) (p p' : Player)
    → core p ≡ core p'
    → g'.deck ≡ g.deck
    → g'.nbr_cards_player ≡ g.nbr_cards_player
    → HasHand g p
    → HasHand g' p'
HasHand-core g g' p p' e deck rules (cards, has, ok, room) =
    (cards, sym (ap (λ (q : Player). q.player_cards_id) e) ∙ has, rw deck ok, rw rules room)

pub start_move-Sound : (s : Session) → Sound s → Returns (start_move s) (λ r. Sound r.1 × Moved s r)
start_move-Sound s v =
    let ((code, s'), e, m) = start_move-Moved v.table in
    let (framed, same) = start_move-Plays s (code, s') e in
    let queue : QueueOk s'.write_queue =
      subst (λ (x : Session). QueueOk x.write_queue) (sym same) v.queue in
    (
      (code, s'),
      e,
      (
        record {
          table = m.0;
          queue = queue;
          hands = λ i p' at plays.
              let (p, at₀, equal) = same_player s.players s'.players i p' framed.players at in
              let role : is_player p.role ≡ true =
                ap (λ (q : Player). is_player q.role) equal ∙ plays in
              HasHand-core s.game s'.game p p' equal framed.deck framed.rules.2
                (v.hands i p at₀ role);
        },
        m,
      ),
    )

Sent-Sound : (s s' : Session) → Sound s → Sent s s' → Sound s'
Sent-Sound s s' v (queue, e, ok) = subst Sound (sym e) (Sound-queue queue ok v)

Chosen-Sound :
    (s : Session) (msg : UserMessage) (index : ℕ) (p : Player) (r : ℤ × Session)
    → Sound s
    → Chosen s msg index p r
    → Sound r.1
Chosen-Sound s msg index p (code, s') v (inl (e, sent)) = Sent-Sound s s' v sent
Chosen-Sound s msg index p (code, s') v (inr done) = done.1

pub Reported-Sound : (s s' : Session) (code : ℤ) → Sound s → Reported s code s' → Sound s'
Reported-Sound s s' code v (queue, awaited, ok, e, _) =
    subst Sound (sym e) (Sound-updated queue awaited (phase_after code s.game.game_state) ok v)

-- The three steps of a play: the choice, the move and the report.
abbrev pub Played : Session → UserMessage → ℕ → Player → Session → Type 0
Played s msg index p s' =
    (r : ℤ × Session) × (code : ℤ) × (moved : Session) × Chosen s msg index p r
    × Moved r.1 (code, moved)
    × Reported moved code s'

-- A player's card, from a player with a seat in a sound session: the choice, the move and the report
-- do not fault, each does what it says, and the session is sound again.
pub play_card-Sound :
    (s : Session) (msg : UserMessage) (index : ℕ) (p : Player)
    → Sound s
    → get_index_by_id s msg.client_id ≡ some (some index)
    → load s.players index ≡ some p
    → is_player p.role ≡ true
    → Returns (play_card s msg) (λ s'. Sound s' × Played s msg index p s')
unfolding play_card
play_card-Sound s msg index p v found at plays =
    let (r, e, chosen) = game_handle_info_return-Chosen s msg index p v found at plays in
    let v₁ = Chosen-Sound s msg index p r v chosen in
    let ((code, moved), e', (v₂, m)) = start_move-Sound r.1 v₁ in
    let (s', e'', reported) = handle_result_of_play-Reported moved code v₂ in
    rw (e, e', e'')
      (s', refl, (Reported-Sound moved s' code v₂ reported, (r, code, moved, chosen, m, reported)))
