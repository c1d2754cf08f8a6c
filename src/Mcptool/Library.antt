-- ===== src/Mcptool/Library.antt =====
-- The MCP library (github.com/mark3labs/mcp-go) as the servers use it: a tool that is added takes the
-- place of the one of its name, and is called with its handler.
use devagent.Base.{String, ◌≡◌, Option, none, some, str_eq, if◌then◌else◌}
use devagent.Mcptool.{Tool}

pub record McpLib (Handler : Type 0) : Type 1 where
  pub Server : Type 0
  pub new_mcp_server : Server
  pub add_tool : Tool → Handler → Server → Server
  pub delete_tool : String → Server → Server
  pub tool_at : String → Server → Option (Tool × Handler)
  pub tool_at-new_mcp_server : (name : String) → tool_at name new_mcp_server ≡ none
  pub tool_at-add_tool :
      (name : String) (tool : Tool) (handler : Handler) (s : Server)
      → tool_at name (add_tool tool handler s)
        ≡ (if str_eq tool.name name then some (tool, handler) else tool_at name s)
  pub tool_at-delete_tool :
      (name deleted : String) (s : Server)
      → tool_at name (delete_tool deleted s)
        ≡ (if str_eq deleted name then none else tool_at name s)
