-- ===== src/Plugins/Gdrdrv/Node/Tracking.antt =====
-- Where there are device nodes, and how they are tracked over a run of `main`.
use ocp_efa_operator.Prelude.{
  ℕ, Bool, true, false, not, ◌&&◌, ◌||◌, Option, none, some, [], ◌∷◌, ◌≡◌, ◌∙◌,
}
use ocp_efa_operator.Plugins.Text.{Bytes, same_bytes}
use ocp_efa_operator.Plugins.System.{Errno, System}
use ocp_efa_operator.Plugins.Loop.{Moment, LoopEnd, returned, waiting}
use ocp_efa_operator.Plugins.Loop.Kept.{IsKept}
use ocp_efa_operator.Plugins.Gdrdrv.Node.{State, Poll, signalled, asleep}

-- where there is a device node
pub record Nodes (sys : System) : Type 0 where
  pub exists : sys.World → Bytes → Bool

abbrev pub made : Option Errno → Bytes → Bytes → Bool → Bool
made none name other before = same_bytes other name || before
made (some e) name other before = before

abbrev pub gone : Option Errno → Bytes → Bytes → Bool → Bool
gone none name other before = not (same_bytes other name) && before
gone (some e) name other before = before

module _ (sys : System) (nodes : Nodes sys) where
  abbrev pub SameNodes : sys.World → sys.World → Type 0
  SameNodes w w' = (name : Bytes) → nodes.exists w' name ≡ nodes.exists w name

  -- Mknod makes a node where there is none, Unlink removes one that is there, and the calls of the
  -- plugin's loop leave all nodes alone
  pub record IsNode (own_socket : Bytes) : Type 0 where
    pub made_node :
        (name : Bytes) (mode dev : ℕ) (w : sys.World) (other : Bytes)
        → nodes.exists (sys.mknod name mode dev w).1 other
          ≡ made (sys.mknod name mode dev w).0 name other (nodes.exists w other)
    pub fresh :
        (name : Bytes) (mode dev : ℕ) (w : sys.World)
        → (sys.mknod name mode dev w).0 ≡ none
        → nodes.exists w name ≡ false
    pub gone_node :
        (name : Bytes) (w : sys.World) (other : Bytes)
        → nodes.exists (sys.unlink name w).1 other
          ≡ gone (sys.unlink name w).0 name other (nodes.exists w other)
    pub unlinks :
        (name : Bytes) (w : sys.World) → nodes.exists w name ≡ true → (sys.unlink name w).0 ≡ none
    pub calls : (w : sys.World) → IsKept sys own_socket (SameNodes w)

  -- nothing makes or removes a node while the program sleeps
  abbrev pub IsQuiet : Poll sys → Type 0
  IsQuiet signalled = Unit
  IsQuiet (asleep env) = (w : sys.World) → SameNodes w (env w)

  abbrev pub QuietBefore : Moment sys → Type 0
  QuietBefore (env, wake) = (w : sys.World) → SameNodes w (env w)

  -- the nodes of now: those of the start and the file that has been created, if one has been
  abbrev pub Tracked : sys.World → Bytes → sys.World → Type 0
  Tracked w0 [] w = SameNodes w0 w
  Tracked w0 (c ∷ s) w =
      (nodes.exists w0 (c ∷ s) ≡ false)
      × ((name : Bytes) → nodes.exists w name ≡ (same_bytes name (c ∷ s) || nodes.exists w0 name))

  pub Tracked-trans :
      (w0 : sys.World) (created : Bytes) (w w' : sys.World)
      → Tracked w0 created w
      → SameNodes w w'
      → Tracked w0 created w'
  Tracked-trans w0 [] w w' t same = λ name. same name ∙ t name
  Tracked-trans w0 (c ∷ s) w w' t same = (t.0, λ name. same name ∙ t.1 name)

  -- while `main` waits, the nodes are tracked; where it is over or still polls, they are as before
  abbrev pub Restored : sys.World → Option LoopEnd × State sys → Type 0
  Restored w0 (some (waiting dp), st) = Tracked w0 st.created_dev_file st.world
  Restored w0 (some (returned e), st) = SameNodes w0 st.world
  Restored w0 (none, st) = SameNodes w0 st.world
