-- ===== src/Examples/Declarations.antt =====
-- A server that is declared beside another, with one tool turned off.
use channel_agent.Prelude.{refl, some, [], ◌∷◌, codes, same_codes}
use channel_agent.Model.{empty}
use channel_agent.Mcp.Server.{stdio, module_of}
use channel_agent.Mcp.Registry.{McpServer, create_server, default_server}
use channel_agent.Mcp.Registry.Fields.{Given, texts, is_server_name}
use channel_agent.Mcp.Registry.Servers.{AreServers}
use channel_agent.Mcp.Registry.Created.{AreServers-create_server}
use channel_agent.Examples.Fixture.{example_env}

abbrev first_server : McpServer
first_server = default_server 1 (codes "clock") stdio (some (codes "time"))

abbrev fields : Given
fields = (codes "disabled_tools", texts (codes "convert" ∷ [])) ∷ []

rows_are : AreServers (first_server ∷ [])
unfolding is_server_name module_of same_codes
rows_are = (refl, refl, tt)

AreServers-create_server_example :
    AreServers
      (create_server
        (codes "time")
        (codes "stdio")
        (some (codes "time"))
        fields
        "admin"
        (empty, first_server ∷ [])).1.1
AreServers-create_server_example =
    AreServers-create_server (codes "time") (codes "stdio") (some (codes "time")) fields "admin"
      empty (first_server ∷ []) rows_are
