-- ===== src/Config/Private.antt =====
-- The runtime's socket is out of reach of other users.
use allgres_agent.Base.{
  ℕ, bit_and, ◌≡◌, refl, Bool, true, false, not, Option, none, some, ◌==◌, if◌then◌else◌, ==_iff,
}
use allgres_agent.Text.{Bytes, codes}
use mathlib.Core.Path.{subst}
use allgres_agent.Json.{unwrap_or}
use allgres_agent.Config.{
  Node, Fs, then_do, create_missing, tighten, ensure_socket_dir, bind_in, bind_rpc_socket, join,
}

-- No permission of the group or of others.
abbrev pub IsPrivate : Node → Type 0
IsPrivate node = bit_and node.mode 0x3f ≡ 0

-- No directory.
abbrev pub IsNoDir : Option Node → Type 0
IsNoDir none = Unit {0}
IsNoDir (some node) = node.is_dir ≡ false

-- What a POSIX file system does, where a path may name what other paths name too. A directory of the
-- owner's stays one that can be looked up as its mode becomes 0700, and a file keeps its kind as its
-- mode changes. What is no directory is never the same as a directory, nor on the way to one: a
-- change of its mode, its removal and the binding of a new socket leave every directory as it is.
pub record Laws (fs : Fs) : Type 0 where
  pub tightens :
      (p : Bytes) (s s' : fs.State) (node : Node)
      → fs.set_permissions p 0x1c0 s ≡ some s'
      → fs.metadata s p ≡ some node
      → node.is_dir ≡ true
      → fs.metadata s' p ≡ some (record node { mode = 0x1c0 })
  pub changes :
      (p : Bytes) (m : ℕ) (s s' : fs.State) (node : Node)
      → fs.set_permissions p m s ≡ some s'
      → fs.metadata s p ≡ some node
      → node.is_dir ≡ false
      → fs.metadata s' p ≡ some (record node { mode = m })
  pub change_keeps :
      (p q : Bytes) (m : ℕ) (s s' : fs.State) (node dir : Node)
      → fs.set_permissions p m s ≡ some s'
      → fs.metadata s p ≡ some node
      → node.is_dir ≡ false
      → fs.metadata s q ≡ some dir
      → dir.is_dir ≡ true
      → fs.metadata s' q ≡ some dir
  pub removal_keeps :
      (p q : Bytes) (s s' : fs.State) (dir : Node)
      → fs.remove_file p s ≡ some s'
      → IsNoDir (fs.metadata s p)
      → fs.metadata s q ≡ some dir
      → dir.is_dir ≡ true
      → fs.metadata s' q ≡ some dir
  pub binds :
      (p : Bytes) (s s' : fs.State)
      → fs.bind p s ≡ some s'
      → (node : Node) × (fs.metadata s' p ≡ some node) × (node.is_dir ≡ false)
  pub binding_keeps :
      (p q : Bytes) (s s' : fs.State) (dir : Node)
      → fs.bind p s ≡ some s'
      → fs.metadata s q ≡ some dir
      → dir.is_dir ≡ true
      → fs.metadata s' q ≡ some dir

module _ (fs : Fs) (laws : Laws fs) where
  open fs use {State, metadata}

  -- A directory that only its owner can use.
  abbrev pub HasPrivateDir : Bytes → State → Type 0
  HasPrivateDir dir s =
      (node : Node) × (metadata s dir ≡ some node) × (node.is_dir ≡ true) × IsPrivate node

  tighten-HasPrivateDir :
      (dir : Bytes) (s s' : State) (o : Option Node)
      → metadata s dir ≡ o
      → tighten fs dir s o ≡ some s'
      → HasPrivateDir dir s'
  unfolding tighten
  tighten-HasPrivateDir dir s s' none e h = cc
  tighten-HasPrivateDir dir s s' (some node) e h =
      go node.is_dir (bit_and node.mode 0x3f == 0) refl refl h
    where
      go :
          (d p : Bool)
          → node.is_dir ≡ d
          → (bit_and node.mode 0x3f == 0) ≡ p
          → (if not d then none else if not p then fs.set_permissions dir 0x1c0 s else some s)
            ≡ some s'
          → HasPrivateDir dir s'
      go false p is_d is_p h = cc
      go true true is_d is_p h =
          let same : s ≡ s' = cc in
          (node, subst (λ u. metadata u dir ≡ some node) same e, is_d, (==_iff _ 0).0 is_p)
      go true false is_d is_p h =
          (record node { mode = 0x1c0 }, laws.tightens dir s s' node h e is_d, is_d, refl)

  -- The steps of a chain that has succeeded.
  then_do-some :
      (o : Option State) (f : State → Option State) (s' : State)
      → then_do fs o f ≡ some s'
      → (s : State) × (o ≡ some s) × (f s ≡ some s')
  then_do-some none f s' h = cc
  then_do-some (some s) f s' h = (s, refl, h)

  ensure_socket_dir-HasPrivateDir :
      (dir : Bytes) (s s' : State) → ensure_socket_dir fs dir s ≡ some s' → HasPrivateDir dir s'
  unfolding ensure_socket_dir
  ensure_socket_dir-HasPrivateDir dir s s' h =
      let (u, made, tight) = then_do-some (create_missing fs dir s) _ s' h in
      tighten-HasPrivateDir dir u s' (metadata u dir) refl tight

  -- The removal of an old socket leaves the directory as it is.
  removed-metadata :
      (path dir : Bytes) (s : State) (node : Node) (o : Option State)
      → fs.remove_file path s ≡ o
      → IsNoDir (metadata s path)
      → metadata s dir ≡ some node
      → node.is_dir ≡ true
      → metadata (unwrap_or o s) dir ≡ some node
  removed-metadata path dir s node none e old found is_dir = found
  removed-metadata path dir s node (some s') e old found is_dir =
      laws.removal_keeps path dir s s' node e old found is_dir

  bind_in-IsPrivate :
      (path dir : Bytes) (s s' : State) (node : Node)
      → bind_in fs path s ≡ some s'
      → IsNoDir (metadata s path)
      → metadata s dir ≡ some node
      → node.is_dir ≡ true
      → ((socket : Node) × (metadata s' path ≡ some socket) × IsPrivate socket)
        × (metadata s' dir ≡ some node)
  unfolding bind_in
  bind_in-IsPrivate path dir s s' node h old found is_dir =
      let before = unwrap_or (fs.remove_file path s) s in
      let (u, bound, changed) = then_do-some (fs.bind path before) _ s' h in
      let (socket, at_path, is_file) = laws.binds path before u bound in
      let removed =
        removed-metadata path dir s node (fs.remove_file path s) refl old found is_dir in
      let kept = laws.binding_keeps path dir before u node bound removed is_dir in
      (
        (
          record socket { mode = 0x180 },
          laws.changes path 0x180 u s' socket changed at_path is_file,
          refl,
        ),
        laws.change_keeps path dir 0x180 u s' socket node changed at_path is_file kept is_dir,
      )

  -- Once the directory is ensured, what stands at the socket's path, if anything, is no directory.
  abbrev pub HasNoDirInside : Bytes → State → Type 0
  HasNoDirInside dir s =
      (u : State)
      → ensure_socket_dir fs dir s ≡ some u
      → IsNoDir (metadata u (join dir (codes "runtime.sock")))

  -- On a POSIX file system, where no directory stands at the socket's path: when the runtime's socket
  -- is bound, its directory is a directory without a permission of the group or of others, whether
  -- it was made or was there before, and neither has the socket in it such a permission.
  pub bind_rpc_socket-IsPrivate :
      (dir : Bytes) (s s' : State)
      → HasNoDirInside dir s
      → bind_rpc_socket fs dir s ≡ some s'
      → HasPrivateDir dir s'
        × (node : Node) × (metadata s' (join dir (codes "runtime.sock")) ≡ some node)
        × IsPrivate node
  unfolding bind_rpc_socket
  bind_rpc_socket-IsPrivate dir s s' old h =
      let (u, ensured, bound) = then_do-some (ensure_socket_dir fs dir s) _ s' h in
      let (node, found, is_dir, is_private) = ensure_socket_dir-HasPrivateDir dir s u ensured in
      let ((socket, at_path, hidden), kept) =
        bind_in-IsPrivate (join dir (codes "runtime.sock")) dir u s' node bound (old u ensured)
          found is_dir in
      ((node, kept, is_dir, is_private), socket, at_path, hidden)
